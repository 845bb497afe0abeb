-- ===== src/Importer/Blueprints/RoundTrip.antt =====
-- What a stop followed by a start leaves of the cluster.
use ces_importer.Base.{
  Result-cases, String, Bool, true, false, not, Option, none, some, List, [], ◌∷◌, ◌++◌, ◌≡◌, ◌≢◌,
  contains-append, refl, ap, ok, ◌==◌, contains, if◌then◌else◌, arith, ◌⊎◌, inl, inr,
}
use ces_importer.Importer.{Answer, found, missing, unavailable}
use ces_importer.Importer.Blueprints.{
  BlueprintInterface, BlueprintControl, deref, start_stop, stop_loop, stop_blueprint, start_loop,
  start_blueprint,
}

-- What an answer tells of a blueprint; nothing, if there is none.
abbrev pub told : Answer (Option Bool) → Option Bool → Option Bool
told (found o) v = some (deref o)
told missing v = none
told (unavailable _) v = v

-- `view w` gives, for each blueprint of the cluster, whether it is stopped. Calls that read leave it
-- alone, and a patch that succeeds sets it for one blueprint.
pub record IsLawful {W : Type 0} (client : BlueprintInterface W) (view : W → String → Option Bool)
    : Type 0 where
  pub list_keeps : (w : W) (n : String) → view (client.list w).1 n ≡ view w n
  pub get_keeps : (m : String) (w : W) (n : String) → view (client.get m w).1 n ≡ view w n
  pub get_reads : (n : String) (w : W) → view w n ≡ told (client.get n w).0 (view w n)
  pub patch_sets :
      (m : String) (b : Bool) (w : W) (n : String)
      → (client.patch m b w).0 ≡ none
      → view (client.patch m b w).1 n ≡ (if m == n then some b else view w n)

module _ {W : Type 0} (client : BlueprintInterface W) (view : W → String → Option Bool)
    (lawful : IsLawful client view) where
  -- `startStop` changed the blueprint, or it was missing or had the wanted state.
  record Switched (m : String) (b c : Bool) (w w' : W) : Type 0 where
    others : (n : String) → (m == n) ≡ false → view w' n ≡ view w n
    changed : c ≡ true → (view w m ≡ some (not b)) × (view w' m ≡ some b)
    unchanged : c ≡ false → (view w' m ≡ view w m) × ((view w m ≡ none) ⊎ (view w m ≡ some b))

  start_stop_lem :
      (m : String) (b c : Bool) (w : W)
      → (start_stop client m b w).0 ≡ ok c
      → Switched m b c w (start_stop client m b w).1
  unfolding start_stop
  start_stop_lem m b c w h = record {
    others =
        λ n d. ground (arith, lawful.get_keeps m w n, lawful.patch_sets m b (client.get m w).1 n);
    changed = λ p. ground (arith, lawful.get_reads m w, lawful.patch_sets m b (client.get m w).1 m);
    unchanged = λ p. ground (arith, lawful.get_keeps m w m, lawful.get_reads m w);
  }

  -- Since `orig`, the recorded blueprints were stopped and nothing else changed.
  record Stopped (orig : String → Option Bool) (s : BlueprintControl W) : Type 0 where
    recorded :
        (n : String)
        → contains s.stopped_blueprints n ≡ true
        → (orig n ≡ some false) × (view s.world n ≡ some true)
    kept : (n : String) → contains s.stopped_blueprints n ≡ false → view s.world n ≡ orig n

  -- The blueprints that are not in `rest` are as in `orig`, and those of `rest` are there and ran in `orig`.
  record Starting (orig : String → Option Bool) (rest : List String) (w : W) : Type 0 where
    remaining : (n : String) → contains rest n ≡ true → (orig n ≡ some false) × (view w n ≢ none)
    started : (n : String) → contains rest n ≡ false → view w n ≡ orig n

  Starting-Switched :
      (orig : String → Option Bool) (m : String) (names : List String) (c : Bool) (w w' : W)
      → Starting orig (m ∷ names) w
      → Switched m false c w w'
      → Starting orig names w'
  Starting-Switched orig m names c w w' inv sw = record {
    remaining = λ n p.
        ground (arith, inv.remaining n, sw.others n, inv.remaining m, sw.changed, sw.unchanged);
    started = λ n p.
        ground (arith, inv.started n, sw.others n, inv.remaining m, sw.changed, sw.unchanged);
  }

  start_loop_lem :
      (orig : String → Option Bool) (names : List String) (w : W)
      → Starting orig names w
      → (start_loop client names w).0 ≡ none
      → (n : String) → view (start_loop client names w).1 n ≡ orig n
  unfolding start_loop
  start_loop_lem orig [] w inv _ n = inv.started n refl
  start_loop_lem orig (m ∷ names) w inv h n = elim (Result-cases (start_stop client m false w).0) [
    | inl (c, p) ↦
        rw (p, start_loop)
          (start_loop_lem orig names _
            (Starting-Switched orig m names c w _ inv (start_stop_lem m false c w p)) (ground arith)
            n)
    | inr (e, p) ↦ ground arith
  ]

  Stopped-Switched :
      (orig : String → Option Bool) (m : String) (c : Bool) (s : BlueprintControl W) (w' : W)
      → Stopped orig s
      → Switched m true c s.world w'
      → Stopped orig (record {
        world = w';
        stopped_blueprints = if c then s.stopped_blueprints ++ m ∷ [] else s.stopped_blueprints;
      })
  Stopped-Switched orig m true s w' inv sw = record {
    recorded = λ n p. ground (
      arith,
      contains-append s.stopped_blueprints (m ∷ []) n,
      inv.recorded n,
      inv.kept n,
      sw.others n,
      sw.changed,
    );
    kept = λ n p. ground (
      arith,
      contains-append s.stopped_blueprints (m ∷ []) n,
      inv.recorded n,
      inv.kept n,
      sw.others n,
      sw.changed,
    );
  }
  Stopped-Switched orig m false s w' inv sw = record {
    recorded = λ n p. ground (arith, inv.recorded n, inv.kept n, sw.others n, sw.unchanged);
    kept = λ n p. ground (arith, inv.recorded n, inv.kept n, sw.others n, sw.unchanged);
  }

  stop_loop_lem :
      (orig : String → Option Bool) (names : List String) (s : BlueprintControl W)
      → Stopped orig s
      → (stop_loop client names s).0 ≡ none
      → Stopped orig (stop_loop client names s).1
  unfolding stop_loop
  stop_loop_lem orig [] s inv _ = inv
  stop_loop_lem orig (m ∷ names) s inv h =
      elim (Result-cases (start_stop client m true s.world).0) [
        | inl (true, p) ↦
            rw (p, stop_loop)
              (stop_loop_lem orig names _
                (Stopped-Switched orig m true s _ inv (start_stop_lem m true true s.world p))
                (ground arith))
        | inl (false, p) ↦
            rw (p, stop_loop)
              (stop_loop_lem orig names _
                (Stopped-Switched orig m false s _ inv (start_stop_lem m true false s.world p))
                (ground arith))
        | inr (e, p) ↦ ground arith
      ]

  stop_blueprint_lem :
      (s : BlueprintControl W)
      → s.stopped_blueprints ≡ []
      → (stop_blueprint client s).0 ≡ none
      → Stopped (view s.world) (stop_blueprint client s).1
  unfolding stop_blueprint
  stop_blueprint_lem s empty h = elim (Result-cases (client.list s.world).0) [
    | inl (names, p) ↦
        rw (p, stop_blueprint)
          (stop_loop_lem (view s.world) names (record s { world = (client.list s.world).1 })
            (record {
              recorded = λ n p. ground (arith, ap (λ xs. contains xs n) empty);
              kept = λ n _. lawful.list_keeps s.world n;
            })
            (ground arith))
    | inr (e, p) ↦ ground arith
  ]

  start_blueprint_lem :
      (orig : String → Option Bool) (s : BlueprintControl W)
      → Stopped orig s
      → (start_blueprint client s).0 ≡ none
      → ((n : String) → view (start_blueprint client s).1.world n ≡ orig n)
        × ((start_blueprint client s).1.stopped_blueprints ≡ [])
  unfolding start_blueprint
  start_blueprint_lem orig s inv h = (
    λ n. ground (
      arith,
      start_loop_lem orig s.stopped_blueprints s.world
          (record { remaining = λ j q. ground (arith, inv.recorded j); started = inv.kept })
          (ground arith) n,
    ),
    ground arith,
  )

  -- If nothing is recorded at first, the client is lawful and both calls succeed, `StartBlueprint` undoes `StopBlueprint`: every blueprint of the cluster is there or
  -- missing, stopped or running as before, those that were stopped already too, and nothing is recorded.
  pub start_blueprint-stop_blueprint :
      (s : BlueprintControl W)
      → s.stopped_blueprints ≡ []
      → (stop_blueprint client s).0 ≡ none
      → (start_blueprint client (stop_blueprint client s).1).0 ≡ none
      → ((n : String)
          → (view (start_blueprint client (stop_blueprint client s).1).1.world n ≡ view s.world n))
        × ((start_blueprint client (stop_blueprint client s).1).1.stopped_blueprints ≡ [])
  start_blueprint-stop_blueprint s empty h k =
      start_blueprint_lem (view s.world) (stop_blueprint client s).1 (stop_blueprint_lem s empty h)
        k

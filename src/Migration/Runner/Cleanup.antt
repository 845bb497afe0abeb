-- ===== src/Migration/Runner/Cleanup.antt =====
-- The deferred clean-up of one migration.
use ces_importer.Base.{
  inl, inr, Bool-cases, ℕ, String, ◌≡◌, refl, ◌∙◌, Bool, true, false, ◌&&◌, ◌||◌, Option, none,
  some, List, [], ◌∷◌, ◌++◌, Error, arith, if◌then◌else◌,
}
use mathlib.Core.List.{append_assoc}
use ces_importer.Migration.Runner.{
  Call, returns, fails, panics, Op, disable, start_all, start_blueprint, send, Migrator, Run,
  is_some, run_error_of, replaced, error_of, ◌>>=◌, restart, cleanup,
}

abbrev pub is_panic : {A : Type 0} → Call A → Bool
is_panic (panics _) = true
is_panic _ = false

regroup : (xs : List Op) (a b c : Op) → xs ++ a ∷ [] ++ b ∷ [] ++ c ∷ [] ≡ xs ++ a ∷ b ∷ c ∷ []
regroup xs a b c = simp append_assoc

error_of-no_panic :
    (r : Call (Unit {0})) → is_panic r ≡ false → error_of r ≡ returns (run_error_of r)
error_of-no_panic r h = ground arith

-- The calls that only the clean-up makes.
abbrev pub is_cleanup : Op → Bool
is_cleanup disable = true
is_cleanup start_all = true
is_cleanup start_blueprint = true
is_cleanup (send _ _ _ _) = true
is_cleanup _ = false

abbrev pub reopening : Bool → List Op
reopening failed_final = if failed_final then disable ∷ [] else []

abbrev pub end_of : Option String → Option Error → Call (Unit {0})
end_of (some p) _ = panics p
end_of none none = returns tt
end_of none (some e) = fails e

module _ {W : Type 0} (m : Migrator W) where
  -- No dependency panics in the clean-up.
  abbrev pub NoPanic : Type 0
  NoPanic = (op : Op) (w : W) → is_cleanup op ≡ true → is_panic (m.perform op w).0 ≡ false

  -- The worlds between the calls of the clean-up.
  abbrev pub after_dogus : W → W
  after_dogus w = (m.perform start_all w).1

  abbrev pub after_blueprint : W → W
  after_blueprint w = (m.perform start_blueprint (after_dogus w)).1

  abbrev pub mail : Bool → Option Error → ℕ → W → Op
  mail is_final run_error start_time w =
      send is_final run_error start_time (m.now (after_blueprint w))

  -- The world in which the dogus are started again.
  abbrev pub reopened : Bool → W → W
  reopened failed_final w = if failed_final then (m.perform disable w).1 else w

  -- The error with which a dependency answers.
  abbrev pub answer : Op → W → Option Error
  answer op w = run_error_of (m.perform op w).0

  error_of-eq :
      NoPanic
      → (op : Op) (w : W) → is_cleanup op ≡ true
      → error_of (m.perform op w).0 ≡ returns (answer op w)
  error_of-eq no_panic op w c = error_of-no_panic (m.perform op w).0 (no_panic op w c)

  -- The error that `cleanup` returns if nothing panicked before: of the calls that fail, the last one's error
  -- is joined to the run's. `w` is the world in which the dogus are started.
  abbrev pub last_error : ℕ → Bool → Option Error → W → Option Error → Option Error
  last_error start_time is_final run_error w ret_error =
      replaced run_error
        (replaced run_error (replaced run_error ret_error (answer start_all w))
          (answer start_blueprint (after_dogus w)))
        (answer (mail is_final run_error start_time w) (after_blueprint w))

  abbrev pub restarting : ℕ → Bool → Option Error → W → List Op
  restarting start_time is_final run_error w =
      start_all ∷ start_blueprint ∷ mail is_final run_error start_time w ∷ []

  abbrev pub reopen_error : Bool → Option Error → W → Option Error
  reopen_error failed_final run_error w =
      if failed_final then replaced run_error run_error (answer disable w) else run_error

  module _ (no_panic : NoPanic) (start_time : ℕ) (is_final : Bool) (run_error : Option Error)
      (run_panic : Option String) where
    restart_lem :
        (s : Run W) (ret_error : Option Error)
        → let (outcome, s') = restart m start_time is_final run_error run_panic ret_error s in
          (outcome ≡ end_of run_panic (last_error start_time is_final run_error s.world ret_error))
          × (s'.calls ≡ s.calls ++ restarting start_time is_final run_error s.world)
    unfolding restart ◌>>=◌
    restart_lem s ret_error =
        rw
          (
            error_of-eq no_panic start_all s.world refl,
            error_of-eq no_panic start_blueprint (after_dogus s.world) refl,
            error_of-eq no_panic (mail is_final run_error start_time s.world)
                (after_blueprint s.world) refl,
          )
          (ground arith, regroup s.calls start_all start_blueprint _)

    abbrev pub failed_final : Bool
    failed_final = (is_some run_error || is_some run_panic) && is_final

    pub cleanup_lem :
        (s : Run W)
        → let (outcome, s') = cleanup m start_time is_final run_error run_panic s in
          let w = reopened failed_final s.world in
          (outcome
            ≡ end_of run_panic (
                last_error start_time is_final run_error w
                  (reopen_error failed_final run_error s.world)))
          × (s'.calls
              ≡ s.calls ++ (reopening failed_final ++ restarting start_time is_final run_error w))
    unfolding cleanup ◌>>=◌
    cleanup_lem s = elim (Bool-cases failed_final) [
      | inl failed ↦
          let s' : Run W = record {
            world = (m.perform disable s.world).1;
            calls = s.calls ++ disable ∷ [];
          } in
          let (outcome, calls) = restart_lem s' (reopen_error true run_error s.world) in
          rw (failed, error_of-eq no_panic disable s.world refl)
            (outcome, calls ∙ append_assoc s.calls (disable ∷ []) _)
      | inr fine ↦ rw fine (restart_lem s run_error)
    ]

-- ===== src/Migration/Runner/Chain.antt =====
-- The calls that have returned when the import job is started.
use ces_importer.Base.{
  ap, ◌∙◌, ℕ, Option, String, ◌≡◌, refl, ◌↔◌, Bool, true, false, ◌||◌, List, [], ◌∷◌, ◌++◌, Error,
  if◌then◌else◌, arith,
}
use ces_importer.Migration.Types.{SystemInfo}
use ces_importer.Migration.Runner.{
  Call, returns, fails, panics, Op, validate_export_mode, get_exporter_system_info,
  get_importer_system_info, validate_system_info, stop_blueprint, resize_dogus_if_needed, stop_all,
  enable, run_job, Migrator, Run, Act, migrate, call, and_then, or_wrap, ◌>>=◌, enable_if_final,
}
use ces_importer.Migration.Runner.Cleanup.{NoPanic, reopening, restarting}
use ces_importer.Migration.Runner.Result.{body, whole, failed_final, run_migration-calls}
use ces_importer.Migration.Context.{Context, is_final_migration}
use ces_importer.Migration.Runner.Order.{fresh}

abbrev pub is_job : Op → Bool
is_job run_job = true
is_job _ = false

-- The import job was started.
abbrev pub has_job : List Op → Bool
has_job [] = false
has_job (op ∷ ops) = is_job op || has_job ops

has_job-append :
    (op : Op) (ops : List Op) → is_job op ≡ false → has_job (ops ++ op ∷ []) ≡ has_job ops
has_job-append op [] h = ground (arith, h)
has_job-append op (o ∷ ops) h = ap (λ b. is_job o || b) (has_job-append op ops h)

-- The clean-up starts no job.
has_job-clean_up :
    {W : Type 0} (ops : List Op) (m : Migrator W) (failed is_final : Bool) (start_time : ℕ)
    (e : Option Error) (w : W)
    → has_job (ops ++ (reopening failed ++ restarting m start_time is_final e w)) ≡ has_job ops
has_job-clean_up [] m failed is_final start_time e w = ground arith
has_job-clean_up (op ∷ ops) m failed is_final start_time e w =
    ap (λ b. is_job op || b) (has_job-clean_up ops m failed is_final start_time e w)

module _ {W : Type 0} where
  abbrev started : {A : Type 0} → Call A × Run W → Bool
  started end = has_job end.1.calls

  -- The call of `f` returned, and what follows has started the job.
  record Returned {A B : Type 0} (f : W → Call A × W) (k : A → Act W B) (w : W) : Type 0 where
    answer : A
    next : Run W
    returned : f w ≡ (returns answer, next.world)
    waiting : has_job next.calls ≡ false
    later : started (k answer next) ≡ true

  ended-Returned :
      {A B : Type 0} (message : String) (f : W → Call A × W) (k : A → Act W B) (w : W)
      (calls : List Op) (r : Call A × W)
      → f w ≡ r
      → has_job calls ≡ false
      → started (and_then (or_wrap message r.0) k (record { world = r.1; calls = calls })) ≡ true
      → Returned f k w
  ended-Returned message f k w calls (returns a, w') e h l = record {
    answer = a;
    next = record { world = w'; calls = calls };
    returned = e;
    waiting = h;
    later = l;
  }
  ended-Returned message f k w calls (fails x, w') e h l = ground (arith, h, l)
  ended-Returned message f k w calls (panics x, w') e h l = ground (arith, h, l)

  call-Returned :
      {A B : Type 0} (message : String) (op : Op) (f : W → Call A × W) (k : A → Act W B) (s : Run W)
      → is_job op ≡ false
      → has_job s.calls ≡ false
      → started ((call message op f >>= k) s) ≡ true
      → Returned f k s.world
  unfolding call ◌>>=◌
  call-Returned message op f k s other h l =
      ended-Returned message f k s.world (s.calls ++ op ∷ []) (f s.world) refl
        (has_job-append op s.calls other ∙ h) l

module _ {W : Type 0} (m : Migrator W) where
  -- The calls before the job, each in the world that the one before has left; `ready` is the world in which the job is started.
  pub record Prepared (is_final : Bool) (w : W) : Type 0 where
    pub exporter_info : SystemInfo
    pub importer_info : SystemInfo
    pub mode_checked : W
    pub exporter_asked : W
    pub importer_asked : W
    pub compared : W
    pub blueprint_stopped : W
    pub resized : W
    pub dogus_stopped : W
    pub ready : W
    pub checks_mode : m.perform validate_export_mode w ≡ (returns tt, mode_checked)
    pub asks_exporter :
        m.query get_exporter_system_info mode_checked ≡ (returns exporter_info, exporter_asked)
    pub asks_importer :
        m.query get_importer_system_info exporter_asked ≡ (returns importer_info, importer_asked)
    pub compares :
        m.perform (validate_system_info exporter_info importer_info) importer_asked
        ≡ (returns tt, compared)
    pub stops_blueprint : m.perform stop_blueprint compared ≡ (returns tt, blueprint_stopped)
    pub resizes :
        m.perform (resize_dogus_if_needed exporter_info.dogus importer_info.dogus) blueprint_stopped
        ≡ (returns tt, resized)
    pub stops_dogus : m.perform stop_all resized ≡ (returns tt, dogus_stopped)
    pub closes :
        (if is_final then m.perform enable dogus_stopped else (returns tt, dogus_stopped))
        ≡ (returns tt, ready)

  closing-Returned :
      (is_final : Bool) (s : Run W)
      → has_job s.calls ≡ false
      → started (
          (enable_if_final m is_final >>= λ _.
          call "failed to run migration job" run_job (m.perform run_job))
            s)
        ≡ true
      → (ready : W) × ((if is_final then m.perform enable s.world else (returns tt, s.world))
          ≡ (returns tt, ready))
  unfolding enable_if_final ◌>>=◌
  closing-Returned false s h l = (s.world, refl)
  closing-Returned true s h l =
      let r = call-Returned _ enable (m.perform enable) _ s refl h l in (r.next.world, r.returned)

  pub migrate-Prepared :
      (is_final : Bool) (w : W)
      → has_job (migrate m is_final (fresh m w)).1.calls ≡ true
      → Prepared is_final w
  unfolding migrate
  migrate-Prepared is_final w l =
      let r1 = call-Returned _ validate_export_mode _ _ (fresh m w) refl refl l in
      let r2 = call-Returned _ get_exporter_system_info _ _ r1.next refl r1.waiting r1.later in
      let ex = r2.answer in
      let r3 = call-Returned _ get_importer_system_info _ _ r2.next refl r2.waiting r2.later in
      let im = r3.answer in
      let r4 = call-Returned _ (validate_system_info ex im) _ _ r3.next refl r3.waiting r3.later in
      let r5 = call-Returned _ stop_blueprint _ _ r4.next refl r4.waiting r4.later in
      let r6 =
        call-Returned _ (resize_dogus_if_needed ex.dogus im.dogus) _ _ r5.next refl r5.waiting
          r5.later in
      let r7 = call-Returned _ stop_all _ _ r6.next refl r6.waiting r6.later in
      let (ready, closed) = closing-Returned is_final r7.next r7.waiting r7.later in
      record {
        exporter_info = ex;
        importer_info = im;
        mode_checked = r1.next.world;
        exporter_asked = r2.next.world;
        importer_asked = r3.next.world;
        compared = r4.next.world;
        blueprint_stopped = r5.next.world;
        resized = r6.next.world;
        dogus_stopped = r7.next.world;
        ready = ready;
        checks_mode = r1.returned;
        asks_exporter = r2.returned;
        asks_importer = r3.returned;
        compares = r4.returned;
        stops_blueprint = r5.returned;
        resizes = r6.returned;
        stops_dogus = r7.returned;
        closes = closed;
      }

  has_job-job : (ops : List Op) → has_job (ops ++ run_job ∷ []) ≡ true
  has_job-job [] = refl
  has_job-job (op ∷ ops) = ground (arith, has_job-job ops)

  Prepared-closing :
      (is_final : Bool) (s : Run W) (ready : W)
      → (if is_final then m.perform enable s.world else (returns tt, s.world)) ≡ (returns tt, ready)
      → started (
          (enable_if_final m is_final >>= λ _.
          call "failed to run migration job" run_job (m.perform run_job))
            s)
        ≡ true
  unfolding enable_if_final ◌>>=◌ call
  Prepared-closing false s ready h = has_job-job s.calls
  Prepared-closing true s ready h = rw h (has_job-job (s.calls ++ enable ∷ []))

  Prepared-migrate :
      (is_final : Bool) (w : W)
      → Prepared is_final w
      → has_job (migrate m is_final (fresh m w)).1.calls ≡ true
  unfolding migrate ◌>>=◌ call
  Prepared-migrate is_final w p =
      rw
        (
          p.checks_mode, p.asks_exporter, p.asks_importer, p.compares, p.stops_blueprint, p.resizes,
          p.stops_dogus,
        )
        (Prepared-closing is_final _ p.ready p.closes)

  -- A migration whose logger is ready and whose clean-up does not panic starts the import job exactly if each call before it, in its order and in the world that
  -- the one before has left, returns; in a final migration the enabling of the maintenance mode too.
  pub run_migration-Prepared :
      (ctx : Context) (w : W)
      → (m.initialize_logger w).0 ≡ returns tt
      → NoPanic m
      → (has_job (whole m ctx w).1.calls ≡ true)
        ↔ Prepared (is_final_migration ctx) (m.initialize_logger w).1
  run_migration-Prepared ctx w ready calm =
      let kept : has_job (whole m ctx w).1.calls ≡ has_job (body m ctx w).1.calls =
        ap has_job (run_migration-calls m ctx w ready calm)
        ∙ has_job-clean_up (body m ctx w).1.calls m (failed_final m ctx w) (is_final_migration ctx)
            _ _ _ in
      rw kept
        (migrate-Prepared (is_final_migration ctx) _, Prepared-migrate (is_final_migration ctx) _)

-- ===== src/Migration/Runner/Outcome.antt =====
-- How a migration ends whose steps before the import job have returned.
use ces_importer.Base.{
  map, sym, ap, ◌∙◌, ◌≡◌, refl, Bool, true, false, ◌||◌, List, [], ◌∷◌, if◌then◌else◌, arith,
}
use ces_importer.Migration.Runner.{
  Call, returns, Op, enable, run_job, Migrator, Run, migrate, call, or_wrap, ◌>>=◌, enable_if_final,
}
use ces_importer.Migration.Runner.Chain.{has_job, Prepared}
use ces_importer.Migration.Runner.Order.{fresh, Step, step_of, copy, plan, migrate-plan}

is_copy : Step → Bool
is_copy copy = true
is_copy _ = false

has_copy : List Step → Bool
has_copy [] = false
has_copy (s ∷ steps) = is_copy s || has_copy steps

has_copy-step_of : (ops : List Op) → has_copy (map step_of ops) ≡ has_job ops
unfolding has_copy is_copy
has_copy-step_of [] = refl
has_copy-step_of (op ∷ ops) = ground (arith, has_copy-step_of ops)

has_copy-plan : (is_final : Bool) → has_copy (plan is_final) ≡ true
unfolding has_copy is_copy
has_copy-plan true = refl
has_copy-plan false = refl

module _ {W : Type 0} (m : Migrator W) where
  -- The call of the job, if it is made in this world, is the end of what `end` gives.
  abbrev pub EndsAs : W → Call (Unit {0}) × Run W → Type 0
  EndsAs ready end =
      let (r, w) = m.perform run_job ready in
      (end.0 ≡ or_wrap "failed to run migration job" r) × (end.1.world ≡ w)

  closing-EndsAs :
      (is_final : Bool) (s : Run W) (ready : W)
      → (if is_final then m.perform enable s.world else (returns tt, s.world)) ≡ (returns tt, ready)
      → EndsAs ready (
          (enable_if_final m is_final >>= λ _.
          call "failed to run migration job" run_job (m.perform run_job))
            s)
  unfolding enable_if_final ◌>>=◌ call
  closing-EndsAs false s ready h = (
    ap (λ x. or_wrap "failed to run migration job" (m.perform run_job x.1).0) h,
    ap (λ x. (m.perform run_job x.1).1) h,
  )
  closing-EndsAs true s ready h = rw h (refl, refl)

  -- A migration whose steps before the job have returned ends as the job does, in the world that the job has left.
  pub Prepared-EndsAs :
      (is_final : Bool) (w : W) (p : Prepared m is_final w)
      → EndsAs p.ready (migrate m is_final (fresh m w))
  unfolding migrate ◌>>=◌ call
  Prepared-EndsAs is_final w p =
      rw
        (
          p.checks_mode, p.asks_exporter, p.asks_importer, p.compares, p.stops_blueprint, p.resizes,
          p.stops_dogus,
        )
        (closing-EndsAs is_final _ p.ready p.closes)

  -- A migration that returns has started the job.
  pub migrate-has_job :
      (is_final : Bool) (w : W)
      → (migrate m is_final (fresh m w)).0 ≡ returns tt
      → has_job (migrate m is_final (fresh m w)).1.calls ≡ true
  migrate-has_job is_final w h =
      let (_, whole_plan) = migrate-plan m is_final w in
      sym (has_copy-step_of (migrate m is_final (fresh m w)).1.calls)
      ∙ ap has_copy (whole_plan (rw h refl))
      ∙ has_copy-plan is_final

-- ===== src/Migration/Runner/Order.antt =====
-- The order in which one migration makes its calls.
use mathlib.Core.List.{append_assoc}
use ces_importer.Base.{
  String, ap, ◌∙◌, ◌≡◌, refl, Bool, true, false, List, [], ◌∷◌, ◌++◌, map, if◌then◌else◌,
}
use ces_importer.Migration.Runner.{
  Call, returns, fails, panics, Op, validate_export_mode, get_exporter_system_info,
  get_importer_system_info, validate_system_info, stop_blueprint, resize_dogus_if_needed, stop_all,
  enable, run_job, disable, start_all, start_blueprint, send, Migrator, Run, Act, migrate, call,
  and_then, or_wrap, ◌>>=◌, is_failure, enable_if_final,
}

-- The steps of a migration, without their arguments.
pub data Step : Type 0 where
  check_mode ask_exporter ask_importer compare halt_blueprint resize halt_dogus close_exporter
        copy :
      Step
  reopen_exporter resume_dogus resume_blueprint report : Step

abbrev pub step_of : Op → Step
step_of validate_export_mode = check_mode
step_of get_exporter_system_info = ask_exporter
step_of get_importer_system_info = ask_importer
step_of (validate_system_info _ _) = compare
step_of stop_blueprint = halt_blueprint
step_of (resize_dogus_if_needed _ _) = resize
step_of stop_all = halt_dogus
step_of enable = close_exporter
step_of run_job = copy
step_of disable = reopen_exporter
step_of start_all = resume_dogus
step_of start_blueprint = resume_blueprint
step_of (send _ _ _ _) = report

abbrev closing : Bool → List Step
closing is_final = if is_final then close_exporter ∷ copy ∷ [] else copy ∷ []

-- The whole migration. Only a final one closes the exporter for its users.
abbrev pub plan : Bool → List Step
plan is_final =
    check_mode
    ∷ ask_exporter
    ∷ ask_importer
    ∷ compare
    ∷ halt_blueprint
    ∷ resize
    ∷ halt_dogus
    ∷ closing is_final

abbrev IsPrefix : List Step → List Step → Type 0
IsPrefix [] ys = Unit
IsPrefix (x ∷ xs) [] = ⊥
IsPrefix (x ∷ xs) (y ∷ ys) = (x ≡ y) × IsPrefix xs ys

module _ {W : Type 0} where
  abbrev steps_of : Run W → List Step
  steps_of s = map step_of s.calls

  -- From `s` the run goes on with calls that are a beginning of `expected`, and with all of it if it
  -- returns.
  record Continues {A : Type 0} (expected : List Step) (s : Run W) (end : Call A × Run W)
      : Type 0 where
    new : List Op
    grown : end.1.calls ≡ s.calls ++ new
    prefix : IsPrefix (map step_of new) expected
    whole : is_failure end.0 ≡ false → map step_of new ≡ expected

  record Follows {A : Type 0} (expected : List Step) (act : Act W A) : Type 0 where
    from : (s : Run W) → Continues expected s (act s)

  Follows-call :
      {A : Type 0} (message : String) (op : Op) (f : W → Call A × W)
      → Follows (step_of op ∷ []) (call message op f)
  unfolding call
  Follows-call message op f = record {
    from = λ s. record { new = op ∷ []; grown = refl; prefix = (refl, tt); whole = λ _. refl };
  }

  -- One call, then the rest.
  Follows-then :
      {A B : Type 0} (message : String) (op : Op) (f : W → Call A × W) (k : A → Act W B)
      (expected : List Step)
      → ((a : A) → Follows expected (k a))
      → Follows (step_of op ∷ expected) (call message op f >>= k)
  unfolding call ◌>>=◌
  Follows-then {A} {B} message op f k expected rest = record { from = λ s. go s (f s.world).0 }
    where
      go :
          (s : Run W) (r : Call A)
          → Continues {A = B} (step_of op ∷ expected) s (
              and_then
                (or_wrap message r)
                k
                (record { world = (f s.world).1; calls = s.calls ++ op ∷ [] }))
      go s (returns a) =
          let tail = (rest a).from (record { world = (f s.world).1; calls = s.calls ++ op ∷ [] }) in
          record {
            new = op ∷ tail.new;
            grown = tail.grown ∙ append_assoc s.calls (op ∷ []) tail.new;
            prefix = (refl, tail.prefix);
            whole = λ h. ap (λ (xs : List Step). step_of op ∷ xs) (tail.whole h);
          }
      go s (fails x) = record { new = op ∷ []; grown = refl; prefix = (refl, tt); whole = λ h. cc }
      go s (panics x) = record { new = op ∷ []; grown = refl; prefix = (refl, tt); whole = λ h. cc }

module _ {W : Type 0} (m : Migrator W) where
  Follows-enable :
      (is_final : Bool)
      → Follows (closing is_final) (
          enable_if_final m is_final >>= λ _.
          call "failed to run migration job" run_job (m.perform run_job))
  unfolding enable_if_final ◌>>=◌
  Follows-enable true = Follows-then _ enable _ _ _ λ _. Follows-call _ run_job _
  Follows-enable false = record { from = (Follows-call _ run_job _).from }

  Follows-migrate : (is_final : Bool) → Follows (plan is_final) (migrate m is_final)
  unfolding migrate
  Follows-migrate is_final = Follows-then _ validate_export_mode _ _ _ λ _.
      Follows-then _ get_exporter_system_info _ _ _ λ ex.
        Follows-then _ get_importer_system_info _ _ _ λ im.
          Follows-then _ (validate_system_info ex im) _ _ _ λ _.
            Follows-then _ stop_blueprint _ _ _ λ _.
              Follows-then _ (resize_dogus_if_needed ex.dogus im.dogus) _ _ _
                λ _. Follows-then _ stop_all _ _ _ λ _. Follows-enable is_final

  abbrev pub fresh : W → Run W
  fresh w = record { world = w; calls = [] }

  -- Before its clean-up a migration makes a beginning of the plan's calls, in the plan's order, and all of
  -- them if it ends with no error and no panic.
  pub migrate-plan :
      (is_final : Bool) (w : W)
      → let (outcome, s) = migrate m is_final (fresh w) in
        IsPrefix (steps_of s) (plan is_final)
        × (is_failure outcome ≡ false → steps_of s ≡ plan is_final)
  migrate-plan is_final w =
      let run = (Follows-migrate is_final).from (fresh w) in rw run.grown (run.prefix, run.whole)

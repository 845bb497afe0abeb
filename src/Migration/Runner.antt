-- ===== src/Migration/Runner.antt =====
-- migration/runner.go. A dependency of the migrator is a function on a world; it returns, fails with an
-- error or panics. The model records the calls in the order in which they are made.
pub mod Cleanup
pub mod Order
pub mod Chain
pub mod Outcome
pub mod Result
use ces_importer.Base.{
  ℕ, String, Bool, true, false, ◌&&◌, ◌||◌, Option, none, some, List, [], ◌∷◌, ◌++◌, Error, wrap,
  join, if◌then◌else◌,
}
use ces_importer.Migration.Types.{Dogu, SystemInfo}
use ces_importer.Migration.Context.{Context, is_final_migration}

-- How a call ends. A panic carries the value that `recover` gives.
pub data Call (A : Type 0) : Type 0 where
  returns : A → Call A
  fails : Error → Call A
  panics : String → Call A

pub data Op : Type 0 where
  validate_export_mode get_exporter_system_info get_importer_system_info : Op
  validate_system_info : SystemInfo → SystemInfo → Op
  stop_blueprint : Op
  resize_dogus_if_needed : List Dogu → List Dogu → Op
  stop_all enable run_job disable start_all start_blueprint : Op
  -- isFinal, migrationResult, startTime and endTime
  send : Bool → Option Error → ℕ → ℕ → Op

-- The fields of `Migrator`; `now` is `time.Now`.
pub record Migrator (W : Type 0) : Type 0 where
  pub initialize_logger : W → Call (Unit {0}) × W
  pub now : W → ℕ
  pub perform : Op → W → Call (Unit {0}) × W
  pub query : Op → W → Call SystemInfo × W

pub record Run (W : Type 0) : Type 0 where
  pub world : W
  pub calls : List Op

abbrev pub Act : Type 0 → Type 0 → Type 0
Act W A = Run W → Call A × Run W

abbrev pub and_then : {W A B : Type 0} → Call A → (A → Act W B) → Act W B
and_then (returns a) f s = f a s
and_then (fails e) f s = (fails e, s)
and_then (panics p) f s = (panics p, s)

-- Shut in proofs, which go by a rule for each step.
infixl 5 ◌>>=◌ ◌>>◌
unfoldable pub ◌>>=◌ : {W A B : Type 0} → Act W A → (A → Act W B) → Act W B
◌>>=◌ m f s = let (r, s') = m s in and_then r f s'

abbrev pub ◌>>◌ : {W B : Type 0} → Act W (Unit {0}) → Act W B → Act W B
m >> k = m >>= λ _. k

abbrev pub or_wrap : {A : Type 0} → String → Call A → Call A
or_wrap message (returns a) = returns a
or_wrap message (fails e) = fails (wrap message e)
or_wrap message (panics p) = panics p

-- One call of a dependency, put on record. The message goes round its error.
unfoldable pub call : {W A : Type 0} → String → Op → (W → Call A × W) → Act W A
call message op f s =
    let (r, w) = f s.world in (or_wrap message r, record { world = w; calls = s.calls ++ op ∷ [] })

-- A call of `cleanup`: its error is handed on, and only a panic ends the clean-up.
abbrev pub error_of : Call (Unit {0}) → Call (Option Error)
error_of (returns _) = returns none
error_of (fails e) = returns (some e)
error_of (panics p) = panics p

abbrev pub attempt : {W : Type 0} → Op → (W → Call (Unit {0}) × W) → Act W (Option Error)
attempt op f s =
    let (r, w) = f s.world in (error_of r, record { world = w; calls = s.calls ++ op ∷ [] })

abbrev pub is_failure : {A : Type 0} → Call A → Bool
is_failure (returns _) = false
is_failure _ = true

-- `if err := …; err != nil { retError = errors.Join(runError, err) }`
abbrev pub replaced : Option Error → Option Error → Option Error → Option Error
replaced run_error ret_error none = ret_error
replaced run_error ret_error (some e) = join run_error (some e)

abbrev pub is_some : {A : Type 0} → Option A → Bool
is_some none = false
is_some (some _) = true

-- The deferred function gets the error that is being returned, or the panic and no error.
abbrev pub run_error_of : Call (Unit {0}) → Option Error
run_error_of (fails e) = some e
run_error_of _ = none

abbrev pub run_panic_of : Call (Unit {0}) → Option String
run_panic_of (panics p) = some p
run_panic_of _ = none

module _ {W : Type 0} (m : Migrator W) where
  -- `if isFinalMigration { … Enable … }`
  unfoldable pub enable_if_final : Bool → Act W (Unit {0})
  enable_if_final false = λ s. (returns tt, s)
  enable_if_final true = call "failed to enable maintenance mode" enable (m.perform enable)

  -- `RunMigration` between the deferred clean-up and its end.
  unfoldable pub migrate : Bool → Act W (Unit {0})
  unfolding enable_if_final
  migrate is_final = do
    call "failed to validate export mode" validate_export_mode (m.perform validate_export_mode)
    exporter_info ←
        call "failed to get system-info from exporter" get_exporter_system_info
          (m.query get_exporter_system_info)
    importer_info ←
        call "failed to get system-info from importer" get_importer_system_info
          (m.query get_importer_system_info)
    call "failed to validate system info" (validate_system_info exporter_info importer_info)
        (m.perform (validate_system_info exporter_info importer_info))
    call "failed to stop blueprint" stop_blueprint (m.perform stop_blueprint)
    call "failed to resize dogu-volumes"
        (resize_dogus_if_needed exporter_info.dogus importer_info.dogus)
        (m.perform (resize_dogus_if_needed exporter_info.dogus importer_info.dogus))
    call "failed to stop all dogus" stop_all (m.perform stop_all)
    enable_if_final is_final
    call "failed to run migration job" run_job (m.perform run_job)

  -- The steps of `cleanup` after the maintenance mode, then the panic thrown again or the result.
  unfoldable pub restart : ℕ → Bool → Option Error → Option String → Option Error → Act W (Unit {0})
  restart start_time is_final run_error run_panic ret_error = do
    started ← attempt start_all (m.perform start_all)
    let after_dogus = replaced run_error ret_error started
    blueprint ← attempt start_blueprint (m.perform start_blueprint)
    let after_blueprint = replaced run_error after_dogus blueprint
    mailed ← λ s.
        let op = send is_final run_error start_time (m.now s.world) in attempt op (m.perform op) s
    let last = replaced run_error after_blueprint mailed
    λ s. (
      elim run_panic [
        | some p ↦ panics p
        | none ↦ elim last [ none ↦ returns tt | some e ↦ fails e ]
      ],
      s,
    )

  unfoldable pub cleanup : ℕ → Bool → Option Error → Option String → Act W (Unit {0})
  cleanup start_time is_final run_error run_panic =
      if (is_some run_error || is_some run_panic) && is_final
      then (do
        disabled ← attempt disable (m.perform disable)
        restart start_time is_final run_error run_panic (replaced run_error run_error disabled))
      else restart start_time is_final run_error run_panic run_error

  unfoldable pub run_migration : Context → Act W (Unit {0})
  run_migration ctx s =
      let (logger, w) = m.initialize_logger s.world in
      let s' = record s { world = w } in
      let is_final = is_final_migration ctx in
      let (outcome, s'') = migrate is_final s' in
      elim logger [
        | fails e ↦ (fails (wrap "failed to reinitialize logger" e), s')
        | panics p ↦ (panics p, s')
        | returns _ ↦ cleanup (m.now w) is_final (run_error_of outcome) (run_panic_of outcome) s''
      ]

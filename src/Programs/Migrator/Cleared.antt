-- ===== src/Programs/Migrator/Cleared.antt =====
-- What the composed migrator has made sure of when the import job is started.
use ces_importer.Base.{
  ap, String, ◌≡◌, Bool, true, Option, none, some, List, Error, All, Result, ok, err, join-eq-none,
  Option-cases, inl, inr, arith,
}
use ces_importer.Migration.Types
use ces_importer.Migration.Types.{Dogu}
use ces_importer.Migration.Context.{Context}
use ces_importer.Migration.Runner.{returns}
use ces_importer.Migration.Runner.Cleanup.{NoPanic}
use ces_importer.Migration.Runner.Chain.{Prepared}
use ces_importer.Exporter.Maintenance.{enable}
use ces_importer.Exporter.Maintenance.Switching.{Switched, enable-Switched}
use ces_importer.Exporter.Services.{path_export_mode}
use ces_importer.Exporter.Services.Answer.{Read, validate_export_mode-active}
use ces_importer.Importer.Blueprints.{BlueprintControl, stop_blueprint}
use ces_importer.SystemInfo.Provider.{get_exporter_system_info, get_importer_system_info}
use ces_importer.Importer.Dogus.{stop_each, stop_all}
use ces_importer.Importer.Dogus.Stopping.{Drained, stop_all-Drained}
use ces_importer.SystemInfo.Names.{get_excluded_dogu_names}
use ces_importer.SystemInfo.Resizer.{Resize, resize_dogus_if_needed}
use ces_importer.SystemInfo.Resizer.Resized.{Gone, AllResized, resize_dogus_if_needed-none}
use ces_importer.SystemInfo.Validator.{validate, do_validate_system_info}
use ces_importer.SystemInfo.Validator.Dogus.{
  DistinctNames, AllInstalled, NoExtra, latest_version, validate_dogus-eq-none,
}
use ces_importer.SystemInfo.Validator.Components.{IsPresent, validate_components-eq-none}
use ces_importer.Programs.Migrator.{
  Parts, migrator, maintenance, ended, done, asked, lifted, system_infos, check_mode,
}

pub ended-returns : (e : Option Error) → ended e ≡ returns tt → e ≡ none
ended-returns e h = ground arith

module _ {W Q B : Type 0} (p : Parts W Q B) where
  -- The systems fit: the versions of the dogus that take part and of the components agree.
  abbrev Fits : Types.SystemInfo → Types.SystemInfo → Type 0
  Fits ex im =
      let excluded = get_excluded_dogu_names p.parse p.excluded_dogus in
      (DistinctNames p.parse excluded ex.dogus
        → AllInstalled p.parse excluded ex.dogus (latest_version p.parse im.dogus)
          × NoExtra p.parse excluded ex.dogus im.dogus)
      × All (IsPresent im.components) ex.components

  validate-Fits :
      (ex im : Types.SystemInfo) → validate p.parse p.excluded_dogus ex im ≡ none → Fits ex im
  unfolding validate do_validate_system_info
  validate-Fits ex im h =
      let (dogus, components) = (join-eq-none _ _).0 (ground arith) in
      (
        λ distinct. (validate_dogus-eq-none p.parse p.excluded_dogus im ex distinct).0 dogus,
        (validate_components-eq-none im ex).0 components,
      )

  done-eq-returns :
      {S : Type 0} (r : Option Error × S) (s : S)
      → done r ≡ (returns tt, s)
      → (r.0 ≡ none) × (r.1 ≡ s)
  done-eq-returns (none, s') s h = ground (arith, h)
  done-eq-returns (some e, s') s h = ground (arith, h)

  asked-eq-returns :
      {A S : Type 0} (r : Result A × S) (a : A) (s : S)
      → asked r ≡ (returns a, s)
      → (r.0 ≡ ok a) × (r.1 ≡ s)
  asked-eq-returns (ok b, s') a s h = ground (arith, h)
  asked-eq-returns (err e, s') a s h = ground (arith, h)

  -- What holds when the job is started, with the worlds of the calls before it.
  pub record Cleared (ctx : Context) (is_final : Bool) (s : BlueprintControl W) : Type 0 where
    pub steps : Prepared (migrator p ctx) is_final s
    pub mode_active :
        Read p.http p.client p.quote path_export_mode p.mode_json s.world
          (record { is_active = true })
    pub exporter_read :
        (get_exporter_system_info (system_infos p) steps.mode_checked.world).0
        ≡ ok steps.exporter_info
    pub importer_read :
        (get_importer_system_info (system_infos p) steps.exporter_asked.world).0
        ≡ ok steps.importer_info
    pub fits : Fits steps.exporter_info steps.importer_info
    pub stops_blueprints : (stop_blueprint p.blueprints steps.compared).0 ≡ none
    pub resized :
        (rs : List Resize) × (w : W) × Gone p.resizer steps.importer_info.dogus
          steps.exporter_info.dogus steps.blueprint_stopped.world rs w
        × AllResized p.resizer rs w
    pub drained :
        (names : List String) × ((p.dogus.list steps.resized.world).0 ≡ ok names)
        × ((stop_each p.dogus names (p.dogus.list steps.resized.world).1).0 ≡ none)
        × Drained p.dogus names
            (stop_each p.dogus names (p.dogus.list steps.resized.world).1).1
            steps.dogus_stopped.world
    pub closed :
        is_final ≡ true
        → Switched p.http p.client p.maintenance_json
            (record { activate = true; message = p.message })
            steps.dogus_stopped.world

  module _ (ctx : Context) (is_final : Bool) (s : BlueprintControl W)
      (steps : Prepared (migrator p ctx) is_final s) where
    mode_checked-eq :
        ((check_mode p s.world).0 ≡ none) × ((check_mode p s.world).1 ≡ steps.mode_checked.world)
    unfolding migrator
    mode_checked-eq =
        let (a, b) = done-eq-returns (lifted (check_mode p) s) _ steps.checks_mode in
        (a, ap (λ x. x.world) b)

    compared-eq : validate p.parse p.excluded_dogus steps.exporter_info steps.importer_info ≡ none
    unfolding migrator
    compared-eq = ended-returns _ (ap (λ x. x.0) steps.compares)

    stopped-eq : stop_all p.dogus 151 steps.resized.world ≡ some (none, steps.dogus_stopped.world)
    unfolding migrator
    stopped-eq =
        let h = steps.stops_dogus in
        elim (Option-cases (stop_all p.dogus 151 steps.resized.world)) [
          | inl q ↦ ground (arith, h)
          | inr ((some e, w), q) ↦ ground (arith, h)
          | inr ((none, w), q) ↦ ground (arith, h)
        ]

    closed-eq :
        is_final ≡ true
        → (enable p.maintenance_json (maintenance p) steps.dogus_stopped.world).0 ≡ none
    unfolding migrator
    closed-eq final =
        (done-eq-returns (lifted (enable p.maintenance_json (maintenance p)) steps.dogus_stopped) _
          (rw final at steps.closes)).0

    pub Prepared-Cleared : Cleared ctx is_final s
    unfolding migrator
    Prepared-Cleared = record {
      steps = steps;
      mode_active =
          (validate_export_mode-active p.http p.client p.quote p.mode_json s.world).0
            mode_checked-eq.0;
      exporter_read =
          (asked-eq-returns (lifted (get_exporter_system_info (system_infos p)) steps.mode_checked)
            _ _ steps.asks_exporter).0;
      importer_read =
          (asked-eq-returns
            (lifted (get_importer_system_info (system_infos p)) steps.exporter_asked) _ _
            steps.asks_importer).0;
      fits = validate-Fits _ _ compared-eq;
      stops_blueprints =
          (done-eq-returns (stop_blueprint p.blueprints steps.compared) _ steps.stops_blueprint).0;
      resized =
          resize_dogus_if_needed-none p.resizer _ _ _
            (done-eq-returns
              (lifted
                (resize_dogus_if_needed p.resizer steps.exporter_info.dogus
                  steps.importer_info.dogus)
                steps.blueprint_stopped)
              _ steps.resizes).0;
      drained = stop_all-Drained p.dogus 151 _ _ stopped-eq;
      closed = λ final.
          (enable-Switched p.http p.client p.maintenance_json none p.message.title p.message.text
              _).0.0
            (closed-eq final);
    }

  -- No component panics in the clean-up.
  pub migrator-NoPanic : (ctx : Context) → NoPanic (migrator p ctx)
  unfolding migrator
  migrator-NoPanic ctx op s c = ground arith

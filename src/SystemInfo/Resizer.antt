-- ===== src/SystemInfo/Resizer.antt =====
-- systeminfo/dogu_volume_resizer.go. The clients, the parsers and the sleep are parameters. The goroutines that resize
-- are run one after the other when the loop has ended, in the order of their start; their interleaving is not
-- modelled. Quantities are numbers of bytes.
pub mod Resized
use ces_importer.Base.{
  ℕ, zero, suc, String, ◌<>◌, ◌==◌, Bool, true, false, ◌||◌, Option, none, some, List, [], ◌∷◌,
  ◌++◌, Error, plain, wrap, join, Result, ok, err, contains, if◌then◌else◌, ltb, leb,
}
use ces_importer.Migration.Types.{Dogu}
use ces_importer.SystemInfo.Names.{
  NameParser, QualifiedName, get_dogu_name_without_namespace, get_excluded_dogu_names,
}
use ces_importer.SystemInfo.Validator.{dogu_nginx}

pub record DoguVolumeResizer (W : Type 0) : Type 0 where
  pub parse : NameParser
  -- `core.ParseVersion`, whose result is a text
  pub parse_version : String → Result String
  -- `NeedsBackup` of the volumes of the dogu's descriptor
  pub get_descriptor : String → String → W → Result (List Bool) × W
  -- `doguClient.Get`, only its success is used
  pub get_dogu : String → W → Result (Unit {0}) × W
  -- `doguClient.Update` with the new `MinDataVolumeSize`
  pub update_dogu : String → ℕ → W → Option Error × W
  -- the capacity of the claim
  pub get_pvc : String → W → Result ℕ × W
  pub sleep : W → W
  pub excluded_dogus : List String

-- `maxRetries`
abbrev pub max_retries : ℕ
max_retries = 60

-- A resize that the loop starts: the names of the exporter's and the importer's dogu, and the new size.
pub record Resize : Type 0 where
  pub exporter_name : String
  pub importer_name : String
  pub size : ℕ

-- The body of the loop of `ResizeDogusIfNeeded`: the resize that it starts, or the error that it collects.
pub data Decision : Type 0 where
  skip : Decision
  report : Error → Decision
  start : Resize → Decision

-- `slices.IndexFunc` with equal names
unfoldable pub find_dogu : String → List Dogu → Option Dogu
find_dogu name [] = none
find_dogu name (dogu ∷ dogus) = if dogu.name == name then some dogu else find_dogu name dogus

unfoldable pub any_true : List Bool → Bool
any_true [] = false
any_true (b ∷ bs) = b || any_true bs

module _ {W : Type 0} (d : DoguVolumeResizer W) where
  -- `NewDoguVolumeResizer` appends nginx to the excluded dogus.
  unfoldable pub excluded_dogus : List String
  excluded_dogus = d.excluded_dogus ++ dogu_nginx ∷ []

  unfoldable pub has_volume_with_backup : Dogu → W → Result Bool × W
  has_volume_with_backup dogu w = elim (d.parse_version dogu.version) [
    | err e ↦ (err (wrap "failed to parse importer dogu version" e), w)
    | ok version ↦ elim (d.parse dogu.name) [
      | err e ↦ (err (wrap "failed to get qualified dogu name" e), w)
      | ok name ↦
          let (descriptor, w') = d.get_descriptor name.simple_name version w in
          (
            elim descriptor [
              | err e ↦ err (wrap "failed to get dogu desciptor for importerDogu" e)
              | ok volumes ↦ ok (any_true volumes)
            ],
            w',
          )
    ]
  ]

  -- The loop of `waitForPVCResize` with the retries that are left.
  unfoldable pub wait_for_pvc_resize : ℕ → String → ℕ → W → Option Error × W
  wait_for_pvc_resize zero name requested w = (
    some (plain ("maximum amount of retries reached for the resize of dogu " <> name <> " volume")),
    w,
  )
  wait_for_pvc_resize (suc retries) name requested w =
      let (pvc, w') = d.get_pvc name (d.sleep w) in
      elim pvc [
        | err _ ↦ wait_for_pvc_resize retries name requested w'
        | ok storage ↦ elim (leb requested storage) [
          | true ↦ (none, w')
          | false ↦ wait_for_pvc_resize retries name requested w'
        ]
      ]

  unfoldable pub resize : String → ℕ → W → Option Error × W
  resize full_name new_size w = elim (d.parse full_name) [
    | err e ↦ (some (wrap ("dogu " <> full_name <> " name is not a qualified dogu name") e), w)
    | ok qualified ↦
        let name = qualified.simple_name in
        let (found, w1) = d.get_dogu name w in
        let (updated, w2) = d.update_dogu name new_size w1 in
        let (waited, w3) = wait_for_pvc_resize max_retries name new_size w2 in
        elim found [
          | err e ↦ (some (wrap ("dogu " <> name <> " could not be found") e), w1)
          | ok _ ↦ elim updated [
            | some e ↦ (
              some (
                  wrap
                    ("dogu " <> name
                      <> " does not have enough volume capacity and the volume could not be resized")
                    e),
              w2,
            )
            | none ↦ elim waited [
              | some e ↦
                  (some (wrap ("error waiting for pvc of dogu " <> name <> " to be resized") e), w3)
              | none ↦ (none, w3)
            ]
          ]
        ]
  ]

  unfoldable pub decide : List Dogu → Dogu → W → Decision × W
  decide importer_dogus exporter_dogu w =
      let name = get_dogu_name_without_namespace d.parse exporter_dogu.name in
      if contains (get_excluded_dogu_names d.parse excluded_dogus) name
      then (skip, w)
      else elim (find_dogu exporter_dogu.name importer_dogus) [
        | none ↦ (
          report
              (plain ("failed to find dogu " <> exporter_dogu.name <> " in the importing system")),
          w,
        )
        | some importer_dogu ↦
            let (has_volume, w') = has_volume_with_backup importer_dogu w in
            (
              elim has_volume [
                | err e ↦ report (
                    wrap
                      ("failed to check if dogu has volume needing backup for dogu "
                        <> importer_dogu.name)
                      e)
                | ok false ↦ skip
                | ok true ↦
                    if ltb importer_dogu.volume.size_in_bytes exporter_dogu.volume.size_in_bytes
                    then start (record {
                      exporter_name = exporter_dogu.name;
                      importer_name = importer_dogu.name;
                      size = exporter_dogu.volume.size_in_bytes;
                    })
                    else skip
              ],
              w',
            )
      ]

  -- The loop: the collected error and the resizes that are started.
  unfoldable pub collect :
      List Dogu → List Dogu → Option Error → W → (Option Error × List Resize) × W
  collect importer_dogus [] e w = ((e, []), w)
  collect importer_dogus (dogu ∷ dogus) e w =
      let (decision, w') = decide importer_dogus dogu w in
      elim decision [
        | skip ↦ collect importer_dogus dogus e w'
        | report failure ↦ collect importer_dogus dogus (join e (some failure)) w'
        | start r ↦ let ((e', rs), w'') = collect importer_dogus dogus e w' in ((e', r ∷ rs), w'')
      ]

  unfoldable pub resize_all : List Resize → Option Error → W → Option Error × W
  resize_all [] e w = (e, w)
  resize_all (r ∷ rs) e w =
      let (failure, w') = resize r.importer_name r.size w in
      resize_all rs
        (elim failure as (λ _. Option Error) [
          | none ↦ e
          | some f ↦ join e (some (wrap ("failed to resize dogu " <> r.exporter_name) f))
        ])
        w'

  unfoldable pub resize_dogus_if_needed : List Dogu → List Dogu → W → Option Error × W
  resize_dogus_if_needed exporter_dogus importer_dogus w =
      let ((e, rs), w') = collect importer_dogus exporter_dogus none w in resize_all rs e w'

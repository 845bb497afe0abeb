-- ===== src/SystemInfo/Provider.antt =====
-- systeminfo/provider.go. A dogu of the cluster comes with what `GetMinDataVolumeSize` gives for it.
use ces_importer.Base.{ℕ, String, ◌<>◌, false, List, [], ◌∷◌, Error, plain, wrap, Result, ok, err}
use ces_importer.Migration.Types.{Dogu, Component, SystemInfo}

pub record InstalledDogu : Type 0 where
  pub name : String
  pub installed_version : String
  pub min_data_volume_size : Result ℕ

pub record InstalledComponent : Type 0 where
  pub name : String
  pub installed_version : String

pub record Provider (W : Type 0) : Type 0 where
  pub list_components : W → Result (List InstalledComponent) × W
  pub list_dogus : W → Result (List InstalledDogu) × W
  pub get_system_info : W → Result SystemInfo × W
  pub error_text : Error → String

-- The loop over the dogus.
unfoldable pub collect_dogus : List InstalledDogu → Result (List Dogu)
collect_dogus [] = ok []
collect_dogus (d ∷ ds) =
    let rest = collect_dogus ds in
    elim d.min_data_volume_size [
      | err e ↦ err (wrap "could not get minDataVolumeSize for dogu" e)
      | ok vol ↦ elim rest [
        | err e ↦ err e
        | ok dogus ↦ ok (
            record {
              name = d.name;
              version = d.installed_version;
              volume = record { size_in_bytes = vol };
            }
            ∷ dogus)
      ]
    ]

unfoldable pub collect_components : List InstalledComponent → List Component
collect_components [] = []
collect_components (c ∷ cs) =
    record { name = c.name; version = c.installed_version } ∷ collect_components cs

module _ {W : Type 0} (p : Provider W) where
  unfoldable pub get_importer_system_info : W → Result SystemInfo × W
  get_importer_system_info w =
      let (listed, w1) = p.list_dogus w in
      let (found, w2) = p.list_components w1 in
      elim listed [
        | err e ↦ (err (wrap "could not get systems dogus" e), w1)
        | ok items ↦ elim (collect_dogus items) [
          | err e ↦ (err e, w1)
          | ok dogus ↦ elim found [
            | err e ↦ (err (plain ("could not get systems components: " <> p.error_text e)), w2)
            | ok components ↦ (
              ok (record {
                fqdn = "";
                is_multinode = false;
                dogus = dogus;
                components = collect_components components;
              }),
              w2,
            )
          ]
        ]
      ]

  unfoldable pub get_exporter_system_info : W → Result SystemInfo × W
  get_exporter_system_info = p.get_system_info

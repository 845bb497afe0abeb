-- ===== src/Migration/Job/Volumes.antt =====
-- migration/jobProvider.go: the volumes of the import job; migration/pvc.go: the claims that hold the
-- dogus' data.
pub mod Mounting
use ces_importer.Base.{
  String, ◌<>◌, Bool, true, false, Option, none, some, List, [], ◌∷◌, ◌++◌, Error, plain, wrap,
  Result, ok, err,
}
use ces_importer.Base.Dict
use ces_importer.Base.Dict.{Dict}

pub record DoguPvc : Type 0 where
  pub dogu_name : String
  pub pvc_name : String

pub record PersistentVolumeClaim : Type 0 where
  pub name : String
  pub labels : Dict String

-- Of `v1.VolumeSource`, the sources in use.
pub data VolumeSource : Type 0 where
  -- `Optional`
  config_map : String → Bool → VolumeSource
  -- `ReadOnly`
  claim : String → Bool → VolumeSource
  -- the secret, and the key and the path of its one item
  secret : String → String → String → VolumeSource

pub record Volume : Type 0 where
  pub name : String
  pub source : VolumeSource

pub record VolumeMount : Type 0 where
  pub name : String
  pub mount_path : String
  pub read_only : Bool

pub record VolumeMounts : Type 0 where
  pub volumes : List Volume
  pub mounts : List VolumeMount

-- The functions of Go's `path` that are in use.
pub record PathOps : Type 0 where
  pub join : String → String → String
  pub base : String → String
  pub dir : String → String

abbrev pub job_name : String
job_name = "migration-job"

-- `fmt.Sprintf("/etc/%s/config", jobName)`
abbrev pub job_config_path : String
job_config_path = "/etc/" <> job_name <> "/config"

unfoldable pub collect_volume_mounts : List VolumeMounts → VolumeMounts
collect_volume_mounts [] = record { volumes = []; mounts = [] }
collect_volume_mounts (vm ∷ vms) =
    let rest = collect_volume_mounts vms in
    record { volumes = vm.volumes ++ rest.volumes; mounts = vm.mounts ++ rest.mounts }

-- One volume and its mount.
abbrev mounted : String → VolumeSource → String → Bool → VolumeMounts
mounted name source path read_only = record {
  volumes = record { name = name; source = source } ∷ [];
  mounts = record { name = name; mount_path = path; read_only = read_only } ∷ [];
}

unfoldable pub create_config_volume_mount : String → VolumeMounts
create_config_volume_mount name =
    mounted "config-volume" (config_map name false) job_config_path true

unfoldable pub create_dogu_volume_mounts : PathOps → String → List DoguPvc → VolumeMounts
create_dogu_volume_mounts paths base [] = record { volumes = []; mounts = [] }
create_dogu_volume_mounts paths base (pvc ∷ pvcs) =
    let volume_name = pvc.dogu_name <> "-data" in
    let rest = create_dogu_volume_mounts paths base pvcs in
    record {
      volumes = record { name = volume_name; source = claim pvc.pvc_name false } ∷ rest.volumes;
      mounts =
          record {
            name = volume_name;
            mount_path = paths.join base pvc.dogu_name;
            read_only = false;
          }
          ∷ rest.mounts;
    }

unfoldable pub create_ssh_private_key_mount : PathOps → String → String → String → VolumeMounts
create_ssh_private_key_mount paths secret_name secret_data_key key_path =
    mounted "ssh-private-key-volume" (secret secret_name secret_data_key (paths.base key_path))
      (paths.dir key_path) true

unfoldable pub create_api_tls_ca_mount : String → String → VolumeMounts
create_api_tls_ca_mount name ca_path = mounted "tls-ca-volume" (config_map name true) ca_path true

-- The claims' names with their dogus', which are empty for a claim with no label.
unfoldable pub dogu_pvcs : String → List PersistentVolumeClaim → List DoguPvc
dogu_pvcs dogu_label_name [] = []
dogu_pvcs dogu_label_name (pvc ∷ pvcs) =
    record {
      dogu_name = elim (Dict.lookup dogu_label_name pvc.labels) [ some v ↦ v | none ↦ "" ];
      pvc_name = pvc.name;
    }
    ∷ dogu_pvcs dogu_label_name pvcs

-- `p.client.List` with the selector of the claims that have the dogu label; it may answer nil.
unfoldable pub get_dogu_volumes :
    {W : Type 0}
    → (W → Result (Option (List PersistentVolumeClaim)) × W)
    → String
    → W
    → Result (List DoguPvc) × W
get_dogu_volumes list_claims dogu_label_name w =
    let (listed, w') = list_claims w in
    (
      elim listed [
        | err e ↦ err (wrap "failed to list PVCs" e)
        | ok none ↦ err (plain "PCV list is nil")
        | ok (some claims) ↦ ok (dogu_pvcs dogu_label_name claims)
      ],
      w',
    )

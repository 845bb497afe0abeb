-- ===== src/Migration/Job/Volumes/Mounting.antt =====
-- The mounts of the import job belong to its volumes.
use ces_importer.Base.{String, ◌<>◌, ◌≡◌, refl, ap, List, [], ◌∷◌, ◌++◌, All}
use ces_importer.Migration.Job.Volumes.{
  PathOps, DoguPvc, Volume, VolumeMount, VolumeMounts, collect_volume_mounts,
  create_dogu_volume_mounts,
}

abbrev pub volume_names : List Volume → List String
volume_names [] = []
volume_names (v ∷ vs) = v.name ∷ volume_names vs

abbrev pub mount_names : List VolumeMount → List String
mount_names [] = []
mount_names (v ∷ vs) = v.name ∷ mount_names vs

-- The volumes and the mounts have the same names in the same order.
abbrev pub Matched : VolumeMounts → Type 0
Matched vm = volume_names vm.volumes ≡ mount_names vm.mounts

volume_names-append :
    (xs ys : List Volume) → volume_names (xs ++ ys) ≡ volume_names xs ++ volume_names ys
volume_names-append [] ys = refl
volume_names-append (x ∷ xs) ys = ap (λ l. x.name ∷ l) (volume_names-append xs ys)

mount_names-append :
    (xs ys : List VolumeMount) → mount_names (xs ++ ys) ≡ mount_names xs ++ mount_names ys
mount_names-append [] ys = refl
mount_names-append (x ∷ xs) ys = ap (λ l. x.name ∷ l) (mount_names-append xs ys)

pub collect_volume_mounts-Matched :
    (vms : List VolumeMounts) → All Matched vms → Matched (collect_volume_mounts vms)
unfolding collect_volume_mounts
collect_volume_mounts-Matched [] _ = refl
collect_volume_mounts-Matched (vm ∷ vms) (h, hs) =
    rw
      (
        volume_names-append vm.volumes (collect_volume_mounts vms).volumes,
        mount_names-append vm.mounts (collect_volume_mounts vms).mounts,
        h,
        collect_volume_mounts-Matched vms hs,
      )
      refl

pub create_dogu_volume_mounts-Matched :
    (paths : PathOps) (base : String) (pvcs : List DoguPvc)
    → Matched (create_dogu_volume_mounts paths base pvcs)
unfolding create_dogu_volume_mounts
create_dogu_volume_mounts-Matched paths base [] = refl
create_dogu_volume_mounts-Matched paths base (pvc ∷ pvcs) =
    ap (λ l. (pvc.dogu_name <> "-data") ∷ l) (create_dogu_volume_mounts-Matched paths base pvcs)

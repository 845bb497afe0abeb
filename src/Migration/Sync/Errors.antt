-- ===== src/Migration/Sync/Errors.antt =====
-- Which errors the result of a copy holds.
use mathlib.Core.List.{append_assoc, append-nil}
use ces_importer.Base.{
  ap, sym, refl, ◌∙◌, String, ◌≡◌, ◌<>◌, Bool, true, false, Option, none, some, List, [], ◌∷◌, ◌++◌,
  Error, wrap, leaves, leaves-join, ok, err, inl, inr, contains, Result-cases, Bool-cases,
}
use ces_importer.Base.Dict
use ces_importer.Migration.Types.{Dogu, SystemInfo, DoguExport}
use ces_importer.Migration.Sync.{
  System, RsyncSyncer, collected, patterns_of, exclude_map, get_simple_dogu_names, get_sub_dirs,
  sync_dogu_dir, sync_sub_dirs, sync_dogu, sync_dogus, sync_data,
}

-- A failure in its message, or nothing.
abbrev failures : String → Option Error → List Error
failures message none = []
failures message (some e) = wrap message e ∷ []

leaves-collected :
    (message : String) (failure result : Option Error)
    → leaves (collected message failure result) ≡ leaves result ++ failures message failure
leaves-collected message none result = sym (append-nil (leaves result))
leaves-collected message (some e) result = leaves-join result (some (wrap message e))

module _ {W : Type 0} (sys : System W) (rs : RsyncSyncer) where
  -- The failures of `rsync` for the directories of a dogu, all of which are copied one after the other.
  abbrev dir_errors : DoguExport → String → List String → Bool → List String → W → List Error
  dir_errors export import_dir patterns use_checksum [] w = []
  dir_errors export import_dir patterns use_checksum (sub_dir ∷ rest) w =
      let destination = sys.join_path import_dir sub_dir in
      let source = sys.clean_path (sys.join_path export.volume_path sub_dir) <> "/" in
      let run =
        sync_dogu_dir sys rs export.exporter_port source destination patterns use_checksum w in
      failures ("failed to sync source " <> source <> " to destination " <> destination) run.0
      ++ dir_errors export import_dir patterns use_checksum rest run.1

  -- The errors of one dogu: its name, the export, the directories, or those of the copies.
  abbrev dogu_errors : Dogu → W → List Error
  dogu_errors dogu w = elim (sys.parse dogu.name) [
    | err e ↦ failures ("failed to get qualified dogu name from dogu " <> dogu.name) (some e)
    | ok q ↦ elim (contains (get_simple_dogu_names sys.parse rs.excluded_dogus) q.simple_name) [
      | true ↦ []
      | false ↦
          let w1 = (sys.set_export_dogu q.simple_name w).1 in
          let dir = sys.join_path rs.dogu_volume_base_path q.simple_name in
          elim (sys.set_export_dogu q.simple_name w).0 [
            | err e ↦ failures ("failed to set dogu " <> dogu.name <> " as export dogu") (some e)
            | ok export ↦ elim (get_sub_dirs sys rs dir w1).0 [
              | err e ↦ failures ("failed to get subDirs for dogu " <> dogu.name) (some e)
              | ok dirs ↦
                  dir_errors export dir
                    (patterns_of (Dict.lookup dogu.name (exclude_map rs.exclude_pattern [])))
                    (contains (get_simple_dogu_names sys.parse rs.checksum_dogus) q.simple_name)
                    dirs (get_sub_dirs sys rs dir w1).1
            ]
          ]
    ]
  ]

  -- Those of all dogus, each tried in the world that the ones before have left.
  abbrev pub dogus_errors : List Dogu → W → List Error
  dogus_errors [] w = []
  dogus_errors (dogu ∷ dogus) w =
      dogu_errors dogu w ++ dogus_errors dogus (sync_dogu sys rs dogu none w).1

  sync_sub_dirs-world :
      (export : DoguExport) (import_dir : String) (patterns : List String) (use_checksum : Bool)
      (dirs : List String) (result result' : Option Error) (w : W)
      → (sync_sub_dirs sys rs export import_dir patterns use_checksum dirs result w).1
        ≡ (sync_sub_dirs sys rs export import_dir patterns use_checksum dirs result' w).1
  unfolding sync_sub_dirs
  sync_sub_dirs-world export import_dir patterns use_checksum [] result result' w = refl
  sync_sub_dirs-world export import_dir patterns use_checksum (d ∷ rest) result result' w =
      sync_sub_dirs-world export import_dir patterns use_checksum rest _ _ _

  sync_sub_dirs-leaves :
      (export : DoguExport) (import_dir : String) (patterns : List String) (use_checksum : Bool)
      (dirs : List String) (result : Option Error) (w : W)
      → leaves (sync_sub_dirs sys rs export import_dir patterns use_checksum dirs result w).0
        ≡ leaves result ++ dir_errors export import_dir patterns use_checksum dirs w
  unfolding sync_sub_dirs
  sync_sub_dirs-leaves export import_dir patterns use_checksum [] result w =
      sym (append-nil (leaves result))
  sync_sub_dirs-leaves export import_dir patterns use_checksum (d ∷ rest) result w =
      let destination = sys.join_path import_dir d in
      let source = sys.clean_path (sys.join_path export.volume_path d) <> "/" in
      let after =
        (sync_dogu_dir sys rs export.exporter_port source destination patterns use_checksum w).1 in
      sync_sub_dirs-leaves export import_dir patterns use_checksum rest _ after
      ∙ ap (λ xs. xs ++ dir_errors export import_dir patterns use_checksum rest after)
          (leaves-collected _ _ result)
      ∙ append_assoc (leaves result) _ _

  -- The errors of a dogu join the result, and the world does not depend on the result.
  sync_dogu-leaves :
      (dogu : Dogu) (result : Option Error) (w : W)
      → (leaves (sync_dogu sys rs dogu result w).0 ≡ leaves result ++ dogu_errors dogu w)
        × ((sync_dogu sys rs dogu result w).1 ≡ (sync_dogu sys rs dogu none w).1)
  unfolding sync_dogu
  sync_dogu-leaves dogu result w = elim (Result-cases (sys.parse dogu.name)) [
    | inr (e, p) ↦ rw (sync_dogu, dogu_errors, p) (leaves-join result _, refl)
    | inl (q, p) ↦
        elim (Bool-cases
          (contains (get_simple_dogu_names sys.parse rs.excluded_dogus) q.simple_name)) [
            | inl x ↦ rw (sync_dogu, dogu_errors, p, x) (sym (append-nil (leaves result)), refl)
            | inr x ↦
                let w1 = (sys.set_export_dogu q.simple_name w).1 in
                let dir = sys.join_path rs.dogu_volume_base_path q.simple_name in
                elim (Result-cases (sys.set_export_dogu q.simple_name w).0) [
                  | inr (e, y) ↦ rw (sync_dogu, dogu_errors, p, x, y) (leaves-join result _, refl)
                  | inl (export, y) ↦ elim (Result-cases (get_sub_dirs sys rs dir w1).0) [
                    | inr (e, z) ↦
                        rw (sync_dogu, dogu_errors, p, x, y, z) (leaves-join result _, refl)
                    | inl (dirs, z) ↦
                        rw (sync_dogu, dogu_errors, p, x, y, z)
                          (
                            sync_sub_dirs-leaves export dir _ _ dirs result _,
                            sync_sub_dirs-world export dir _ _ dirs result none _,
                          )
                  ]
                ]
          ]
  ]

  sync_dogus-leaves :
      (dogus : List Dogu) (result : Option Error) (w : W)
      → leaves (sync_dogus sys rs dogus result w).0 ≡ leaves result ++ dogus_errors dogus w
  unfolding sync_dogus
  sync_dogus-leaves [] result w = sym (append-nil (leaves result))
  sync_dogus-leaves (dogu ∷ dogus) result w =
      let (joined, same) = sync_dogu-leaves dogu result w in
      sync_dogus-leaves dogus _ _
      ∙ ap (λ v. leaves (sync_dogu sys rs dogu result w).0 ++ dogus_errors dogus v) same
      ∙ ap (λ xs. xs ++ dogus_errors dogus (sync_dogu sys rs dogu none w).1) joined
      ∙ append_assoc (leaves result) _ _

  -- If the exporter gives its system info, then the errors joined in the result of `SyncData` are those of all of its dogus and of all of their directories, in
  -- their order and each in its message: an error ends neither the copy of the directories after it nor that of the dogus after it, and none is lost.
  pub sync_data-leaves :
      (info : SystemInfo) (w : W)
      → (sys.get_system_info w).0 ≡ ok info
      → leaves (sync_data sys rs w).0 ≡ dogus_errors info.dogus (sys.get_system_info w).1
  unfolding sync_data
  sync_data-leaves info w p = rw (p, sync_data) (sync_dogus-leaves info.dogus none _)

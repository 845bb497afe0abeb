-- ===== src/Migration/Sync/Copies.antt =====
-- What a copy without an error has done.
use ces_importer.Base.{String, ◌≡◌, ◌<>◌, Bool, true, none, List, [], ◌∷◌, ok, contains}
use ces_importer.Base.Dict
use ces_importer.Migration.Types.{Dogu, SystemInfo, DoguExport}
use ces_importer.SystemInfo.Names.{QualifiedName}
use ces_importer.Migration.Sync.{
  System, RsyncSyncer, patterns_of, exclude_map, get_simple_dogu_names, get_sub_dirs, sync_dogu_dir,
  sync_dogu,
}

module _ {W : Type 0} (sys : System W) (rs : RsyncSyncer) where
  -- `rsync` succeeded for each of the directories, from the exporter's volume to the one of the importer.
  abbrev pub DirsCopied : DoguExport → String → List String → Bool → List String → W → Type 0
  DirsCopied export import_dir patterns use_checksum [] w = Unit
  DirsCopied export import_dir patterns use_checksum (sub_dir ∷ rest) w =
      let source = sys.clean_path (sys.join_path export.volume_path sub_dir) <> "/" in
      let run =
        sync_dogu_dir sys rs export.exporter_port source (sys.join_path import_dir sub_dir) patterns
          use_checksum w in
      (run.0 ≡ none) × DirsCopied export import_dir patterns use_checksum rest run.1

  -- The dogu is excluded, or it was exported and each directory in the importer's volume of it was copied.
  pub data DoguCopied (dogu : Dogu) (w : W) : Type 0 where
    excluded :
        (q : QualifiedName)
        → sys.parse dogu.name ≡ ok q
        → contains (get_simple_dogu_names sys.parse rs.excluded_dogus) q.simple_name ≡ true
        → DoguCopied dogu w
    copied :
        (q : QualifiedName) (export : DoguExport) (dirs : List String)
        → sys.parse dogu.name ≡ ok q
        → (sys.set_export_dogu q.simple_name w).0 ≡ ok export
        → (get_sub_dirs sys rs
            (sys.join_path rs.dogu_volume_base_path q.simple_name)
            (sys.set_export_dogu q.simple_name w).1).0
          ≡ ok dirs
        → DirsCopied export
            (sys.join_path rs.dogu_volume_base_path q.simple_name)
            (patterns_of (Dict.lookup dogu.name (exclude_map rs.exclude_pattern [])))
            (contains (get_simple_dogu_names sys.parse rs.checksum_dogus) q.simple_name)
            dirs
            (get_sub_dirs sys rs
              (sys.join_path rs.dogu_volume_base_path q.simple_name)
              (sys.set_export_dogu q.simple_name w).1).1
        → DoguCopied dogu w

  -- One after the other.
  abbrev pub DogusCopied : List Dogu → W → Type 0
  DogusCopied [] w = Unit
  DogusCopied (dogu ∷ dogus) w =
      DoguCopied dogu w × DogusCopied dogus (sync_dogu sys rs dogu none w).1

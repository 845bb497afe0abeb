-- ===== src/Migration/Sync/Frame.antt =====
-- What the copy of the data leaves alone.
use ces_importer.Base.{
  Keeps, ◌∙◌, String, Bool, Option, List, [], ◌∷◌, Error, none, contains, arith, Result-cases, inl,
  inr,
}
use ces_importer.Base.Dict
use ces_importer.Migration.Types.{Dogu, DoguExport}
use ces_importer.Migration.Sync.{
  System, RsyncSyncer, get_sub_dirs, sync_dogu_dir, sync_sub_dirs, sync_dogu, sync_dogus, sync_data,
  patterns_of, exclude_map, get_simple_dogu_names,
}

-- The exporter's clients, the file system and rsync do not touch the value.
pub record Spares {W V : Type 0} (sys : System W) (value : W → V) : Type 0 where
  pub get_system_info : Keeps value sys.get_system_info
  pub set_export_dogu : (name : String) → Keeps value (sys.set_export_dogu name)
  pub read_dir : (dir : String) → Keeps value (sys.read_dir dir)
  pub rsync : (args : List String) → Keeps value (sys.rsync args)

module _ {W V : Type 0} (sys : System W) (rs : RsyncSyncer) (value : W → V)
    (spares : Spares sys value) where
  sync_sub_dirs-Keeps :
      (export : DoguExport) (import_dir : String) (patterns : List String) (use_checksum : Bool)
      (dirs : List String) (result : Option Error)
      → Keeps value (sync_sub_dirs sys rs export import_dir patterns use_checksum dirs result)
  unfolding sync_sub_dirs sync_dogu_dir
  sync_sub_dirs-Keeps export import_dir patterns use_checksum [] result w = ground arith
  sync_sub_dirs-Keeps export import_dir patterns use_checksum (sub_dir ∷ dirs) result w =
      sync_sub_dirs-Keeps export import_dir patterns use_checksum dirs _ _ ∙ spares.rsync _ w

  sync_dogu-Keeps :
      (dogu : Dogu) (result : Option Error) → Keeps value (sync_dogu sys rs dogu result)
  unfolding sync_dogu get_sub_dirs
  sync_dogu-Keeps dogu result w = elim (Result-cases (sys.parse dogu.name)) [
    | inr (e, p) ↦ ground (arith, p)
    | inl (q, p) ↦
        let exported = sys.set_export_dogu q.simple_name w in
        let dir = sys.join_path rs.dogu_volume_base_path q.simple_name in
        let dirs = get_sub_dirs sys rs dir exported.1 in
        elim (Result-cases exported.0) [
          | inr (e, r) ↦ ground (arith, p, r, spares.set_export_dogu q.simple_name w)
          | inl (export, r) ↦ elim (Result-cases dirs.0) [
            | inr (e, t) ↦ ground (
              arith,
              p,
              r,
              t,
              spares.set_export_dogu q.simple_name w,
              spares.read_dir dir exported.1,
            )
            | inl (names, t) ↦ ground (
              arith,
              p,
              r,
              t,
              spares.set_export_dogu q.simple_name w,
              spares.read_dir dir exported.1,
              sync_sub_dirs-Keeps export dir
                  (patterns_of (Dict.lookup dogu.name (exclude_map rs.exclude_pattern [])))
                  (contains (get_simple_dogu_names sys.parse rs.checksum_dogus) q.simple_name) names
                  result dirs.1,
            )
          ]
        ]
  ]

  sync_dogus-Keeps :
      (dogus : List Dogu) (result : Option Error) → Keeps value (sync_dogus sys rs dogus result)
  unfolding sync_dogus
  sync_dogus-Keeps [] result w = ground arith
  sync_dogus-Keeps (dogu ∷ dogus) result w =
      sync_dogus-Keeps dogus _ _ ∙ sync_dogu-Keeps dogu result w

  pub sync_data-Keeps : Keeps value (sync_data sys rs)
  unfolding sync_data
  sync_data-Keeps w = elim (Result-cases (sys.get_system_info w).0) [
    | inr (e, p) ↦ ground (arith, p, spares.get_system_info w)
    | inl (info, p) ↦ ground (
      arith,
      p,
      spares.get_system_info w,
      sync_dogus-Keeps info.dogus none (sys.get_system_info w).1,
    )
  ]

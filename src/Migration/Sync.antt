-- ===== src/Migration/Sync.antt =====
-- migration/sync/rsync.go: the copy of the dogus' data.
pub mod Copies
pub mod Errors
pub mod Frame
use ces_importer.Configuration.Types.{ExcludePattern}
use ces_importer.Base.{
  ℕ, String, ◌<>◌, Bool, true, false, not, ◌&&◌, Option, none, some, List, [], ◌∷◌, ◌++◌, map,
  Error, wrap, join, Result, ok, err, contains, if◌then◌else◌,
}
use ces_importer.Base.Dict
use ces_importer.Base.Dict.{Dict}
use ces_importer.Migration.Types.{Dogu, SystemInfo, DoguExport}
use ces_importer.SystemInfo.Names.{NameParser, QualifiedName}

-- A directory entry: its name and whether it is a directory.
pub record DirEntry : Type 0 where
  pub name : String
  pub is_dir : Bool

-- What `os.ReadDir` answers.
pub data ReadDir : Type 0 where
  listing : List DirEntry → ReadDir
  not_exist : ReadDir
  read_error : Error → ReadDir

-- The steps of a command at which it can fail.
pub record Outcome : Type 0 where
  pub stdout_pipe : Option Error
  pub stderr_pipe : Option Error
  pub start : Option Error
  pub wait : Option Error

pub record RsyncSyncer : Type 0 where
  pub host : String
  pub user : String
  pub private_key_path : String
  pub exclude_pattern : List ExcludePattern
  pub dogu_volume_base_path : String
  pub excluded_dogus : List String
  pub checksum_dogus : List String
  pub verbose : Bool

-- The exporter's clients, the file system, the process and Go's `path` and number formats.
pub record System (W : Type 0) : Type 0 where
  pub parse : NameParser
  pub get_system_info : W → Result SystemInfo × W
  pub set_export_dogu : String → W → Result DoguExport × W
  pub read_dir : String → W → ReadDir × W
  -- a run of `rsync` with the arguments; its output is logged
  pub rsync : List String → W → Outcome × W
  pub join_path : String → String → String
  pub clean_path : String → String
  pub show_port : ℕ → String

abbrev pub sub_dirs_to_ignore : List String
sub_dirs_to_ignore = "lost+found" ∷ "_private" ∷ []

unfoldable pub simple_name_or : NameParser → String → String
simple_name_or parse name = elim (parse name) [ ok q ↦ q.simple_name | err _ ↦ name ]

unfoldable pub get_simple_dogu_names : NameParser → List String → List String
get_simple_dogu_names parse = map (simple_name_or parse)

unfoldable pub sub_dirs : List DirEntry → List String
sub_dirs [] = []
sub_dirs (entry ∷ entries) =
    let rest = sub_dirs entries in
    if entry.is_dir && not (contains sub_dirs_to_ignore entry.name) then entry.name ∷ rest else rest

-- `excludeMap[p.DoguName] = append(excludeMap[p.DoguName], p.Pattern...)` for each entry
abbrev pub patterns_of : Option (List String) → List String
patterns_of none = []
patterns_of (some ps) = ps

unfoldable pub exclude_map : List ExcludePattern → Dict (List String) → Dict (List String)
exclude_map [] m = m
exclude_map (p ∷ ps) m =
    exclude_map ps
      (Dict.insert p.dogu_name (patterns_of (Dict.lookup p.dogu_name m) ++ p.pattern) m)

-- `result = errors.Join(result, fmt.Errorf(…, err))`, if there is an error
abbrev pub collected : String → Option Error → Option Error → Option Error
collected message none result = result
collected message (some e) result = join result (some (wrap message e))

module _ {W : Type 0} (sys : System W) (rs : RsyncSyncer) where
  unfoldable pub get_sub_dirs : String → W → Result (List String) × W
  get_sub_dirs dir w =
      let (answer, w') = sys.read_dir dir w in
      (
        elim answer [
          | listing es ↦ ok (sub_dirs es)
          | not_exist ↦ ok []
          | read_error e ↦ err (wrap "error reading dest-dir" e)
        ],
        w',
      )

  abbrev optional : Bool → String → List String
  optional true arg = arg ∷ []
  optional false arg = []

  unfoldable pub build_rsync_args : ℕ → String → String → List String → Bool → List String
  build_rsync_args port source destination exclude_patterns use_checksum =
      (if rs.verbose then "-avhz" else "-ahz") ∷ "--delete" ∷ optional use_checksum "--checksum"
      ++ ("--sparse" ∷ "--stats" ∷ "--delete-excluded" ∷ [])
      ++ map (λ pattern. "--exclude=" <> pattern) exclude_patterns
      ++ ("-e"
          ∷ ("ssh -p "
              <> sys.show_port port
              <> " -l "
              <> rs.user
              <> " -i "
              <> rs.private_key_path
              <> " -o StrictHostKeyChecking=no -o BatchMode=yes")
          ∷ (rs.host <> ":" <> source)
          ∷ destination
          ∷ [])

  -- The command's first failure.
  abbrev failure_of : Outcome → Option Error
  failure_of o = elim o.stdout_pipe [
    | some e ↦ some (wrap "error creating stdout pipe" e)
    | none ↦ elim o.stderr_pipe [
      | some e ↦ some (wrap "error creating stderr pipe" e)
      | none ↦ elim o.start [
        | some e ↦ some (wrap "error starting rsync" e)
        | none ↦ elim o.wait [ some e ↦ some (wrap "rsync exited with error" e) | none ↦ none ]
      ]
    ]
  ]

  unfoldable pub sync_dogu_dir : ℕ → String → String → List String → Bool → W → Option Error × W
  sync_dogu_dir port source destination exclude_patterns use_checksum w =
      let (outcome, w') =
        sys.rsync (build_rsync_args port source destination exclude_patterns use_checksum) w in
      (failure_of outcome, w')

  -- The loop over the directories of one dogu: their errors are collected.
  unfoldable pub sync_sub_dirs :
      DoguExport → String → List String → Bool → List String → Option Error → W → Option Error × W
  sync_sub_dirs export import_dir patterns use_checksum [] result w = (result, w)
  sync_sub_dirs export import_dir patterns use_checksum (sub_dir ∷ rest) result w =
      let destination = sys.join_path import_dir sub_dir in
      let source = sys.clean_path (sys.join_path export.volume_path sub_dir) <> "/" in
      let (failure, w') =
        sync_dogu_dir export.exporter_port source destination patterns use_checksum w in
      let message = "failed to sync source " <> source <> " to destination " <> destination in
      sync_sub_dirs export import_dir patterns use_checksum rest (collected message failure result)
        w'

  abbrev pub get_excluded_dogu_names : List String
  get_excluded_dogu_names = get_simple_dogu_names sys.parse rs.excluded_dogus

  -- The body of the loop of `SyncData`.
  unfoldable pub sync_dogu : Dogu → Option Error → W → Option Error × W
  sync_dogu dogu result w = elim (sys.parse dogu.name) [
    | err e ↦ (
      join result (some (wrap ("failed to get qualified dogu name from dogu " <> dogu.name) e)),
      w,
    )
    | ok qualified ↦
        let name = qualified.simple_name in
        let (export, w1) = sys.set_export_dogu name w in
        let import_dir = sys.join_path rs.dogu_volume_base_path name in
        let (dirs, w2) = get_sub_dirs import_dir w1 in
        let patterns = patterns_of (Dict.lookup dogu.name (exclude_map rs.exclude_pattern [])) in
        let use_checksum = contains (get_simple_dogu_names sys.parse rs.checksum_dogus) name in
        if contains get_excluded_dogu_names name then (result, w) else elim export [
          | err e ↦ (
            join result (some (wrap ("failed to set dogu " <> dogu.name <> " as export dogu") e)),
            w1,
          )
          | ok dogu_export ↦ elim dirs [
            | err e ↦
                (join result (some (wrap ("failed to get subDirs for dogu " <> dogu.name) e)), w2)
            | ok names ↦ sync_sub_dirs dogu_export import_dir patterns use_checksum names result w2
          ]
        ]
  ]

  unfoldable pub sync_dogus : List Dogu → Option Error → W → Option Error × W
  sync_dogus [] result w = (result, w)
  sync_dogus (dogu ∷ dogus) result w =
      let (errors, w') = sync_dogu dogu result w in sync_dogus dogus errors w'

  unfoldable pub sync_data : W → Option Error × W
  sync_data w =
      let (info, w') = sys.get_system_info w in
      elim info [
        | err e ↦ (some (wrap "failed to fetch exporter system info" e), w')
        | ok system_info ↦ sync_dogus system_info.dogus none w'
      ]

-- ===== src/Logging.antt =====
-- logging/logger.go. Files, the levels of `slog` and its handlers are parameters. A writer is the list of the writers that
-- `io.MultiWriter` copies to, each of a type `H`; levels are of a type `L`.
pub mod Written
use ces_importer.Base.{
  String, Option, none, some, List, [], ◌∷◌, ◌++◌, Error, wrap, join, Result, ok, err,
}

-- `os.Stdout`, `os.OpenFile` with the mode that empties the file, `UnmarshalText` of a level and the level INFO.
pub record System (W H L : Type 0) : Type 0 where
  pub stdout : H
  pub open_file : String → W → Result H × W
  pub parse_level : String → Result L
  pub info : L

pub record Logger (H L : Type 0) : Type 0 where
  pub level : L
  pub attributes : List (String × String)
  pub writer : List H

-- The world with the package's `writer` and the handler of `slog`'s default logger, which is that of a logger.
pub record Global (W H L : Type 0) : Type 0 where
  pub world : W
  pub writer : List H
  pub handler : Logger H L

abbrev pub path_app_log_file : String
path_app_log_file = "/home/ces-importer/migration-log/log.log"

-- `LoggerOption`
abbrev pub LoggerOption : Type 0 → Type 0 → Type 0 → Type 0
LoggerOption W H L = Logger H L → W → Option Error × Logger H L × W

module _ {W H L : Type 0} (sys : System W H L) where
  unfoldable pub with_level : String → LoggerOption W H L
  with_level level l w = elim (sys.parse_level level) [
    | err e ↦ (some (wrap "failed to parse log level, fallback to INFO" e), l, w)
    | ok log_level ↦ (none, record l { level = log_level }, w)
  ]

  unfoldable pub with_component : String → LoggerOption W H L
  with_component component l w =
      (none, record l { attributes = l.attributes ++ ("component", component) ∷ [] }, w)

  unfoldable pub with_file : String → LoggerOption W H L
  with_file file l w =
      let (opened, w') = sys.open_file file w in
      elim opened [
        | err e ↦ (some (wrap "failed to open log file" e), l, w')
        | ok log_file ↦ (none, record l { writer = l.writer ++ log_file ∷ [] }, w')
      ]

  -- The loop over the options.
  unfoldable pub apply_options :
      List (LoggerOption W H L) → Option Error → Logger H L → W → Option Error × Logger H L × W
  apply_options [] failure l w = (failure, l, w)
  apply_options (option ∷ options) failure l w =
      let (e, l', w') = option l w in apply_options options (join failure e) l' w'

  abbrev pub new_logger : Logger H L
  new_logger = record { level = sys.info; attributes = []; writer = sys.stdout ∷ [] }

  unfoldable pub init_structured_logger :
      List (LoggerOption W H L) → Global W H L → Option Error × Global W H L
  init_structured_logger options g =
      let (failure, l, w) = apply_options options none new_logger g.world in
      elim failure [
        | some e ↦ (some (wrap "failed to set options" e), record g { world = w; handler = l })
        | none ↦ (none, record { world = w; writer = l.writer; handler = l })
      ]

  -- `initLog` of cmd/ces-importer/main.go, which every migration calls again
  unfoldable pub init_log : String → Global W H L → Option Error × Global W H L
  init_log level =
      init_structured_logger
        (with_level level ∷ with_component "ces-importer" ∷ with_file path_app_log_file ∷ [])

-- ===== src/Logging/Written.antt =====
-- Where the importer logs to.
use ces_importer.Base.{
  String, ◌≡◌, ◌≢◌, ◌↔◌, none, [], ◌∷◌, join, ok, arith, Result-cases, inl, inr,
}
use ces_importer.Logging.{
  System, Logger, Global, with_level, with_component, with_file, apply_options,
  init_structured_logger, init_log, path_app_log_file,
}

module _ {W H L : Type 0} (sys : System W H L) where
  -- The logger is at the level, names its component and writes to the standard output and to the file.
  abbrev pub configured : L → H → Logger H L
  configured level log_file = record {
    level = level;
    attributes = ("component", "ces-importer") ∷ [];
    writer = sys.stdout ∷ log_file ∷ [];
  }

  -- The logger is initialised without an error exactly if the level can be read and the log file be opened. Then the default logger and the writer that the
  -- logs of the import job are copied to write to the standard output and to that file, at that level. If it fails, the
  -- writer stays the one before.
  pub init_log-configured :
      (level : String) (g : Global W H L)
      → let (failure, g') = init_log sys level g in
        let opened = sys.open_file path_app_log_file g.world in
        ((failure ≡ none)
          ↔ (l : L) × (f : H) × (sys.parse_level level ≡ ok l)
            × (opened.0 ≡ ok f)
            × (g' ≡ record {
              world = opened.1;
              writer = sys.stdout ∷ f ∷ [];
              handler = configured l f;
            }))
        × (failure ≢ none → g'.writer ≡ g.writer)
  unfolding init_log init_structured_logger apply_options with_level with_component with_file join
  init_log-configured level g =
      let opened = sys.open_file path_app_log_file g.world in
      elim (Result-cases (sys.parse_level level)) [
        | inr (e, p) ↦ (
          (λ h. ground (arith, p, h), λ (l, f, a, b, c). ground (arith, p, a)),
          λ h. ground (arith, p),
        )
        | inl (l, p) ↦ elim (Result-cases opened.0) [
          | inr (e, q) ↦ (
            (λ h. ground (arith, p, q, h), λ (l', f, a, b, c). ground (arith, p, q, b)),
            λ h. ground (arith, p, q),
          )
          | inl (f, q) ↦ (
            (λ h. (l, f, p, q, ground (arith, p, q)), λ _. ground (arith, p, q)),
            λ h. ground (arith, p, q, h),
          )
        ]
      ]

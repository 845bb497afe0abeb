-- ===== src/Migration/ExportMode.antt =====
-- migration/exportmode.go. `mode` is the answer of `GetExportMode`.
use ces_importer.Base.{Bool, Option, none, some, Error, plain, wrap, Result, ok, err, if◌then◌else◌}

unfoldable pub validate_export_mode : Result Bool → Option Error
validate_export_mode (err e) = some (wrap "failed to validate export mode" e)
validate_export_mode (ok is_active) =
    if is_active then none else some (plain "export mode is not active")

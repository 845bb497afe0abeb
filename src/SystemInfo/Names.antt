-- ===== src/SystemInfo/Names.antt =====
-- Dogu names with and without their namespace (systeminfo/validator.go). The parser of qualified names,
-- `QualifiedNameFromString`, belongs to ces-commons-lib and is a parameter.
use ces_importer.Base.{String, List, Result, ok, err, map}

-- `QualifiedName` of ces-commons-lib
pub record QualifiedName : Type 0 where
  pub namespace : String
  pub simple_name : String

abbrev pub NameParser : Type 0
NameParser = String → Result QualifiedName

-- It falls back on the name that was passed in.
unfoldable pub get_dogu_name_without_namespace : NameParser → String → String
get_dogu_name_without_namespace parse dogu_name = elim (parse dogu_name) [
  | ok qualified ↦ qualified.simple_name
  | err _ ↦ dogu_name
]

unfoldable pub get_excluded_dogu_names : NameParser → List String → List String
get_excluded_dogu_names parse = map (get_dogu_name_without_namespace parse)

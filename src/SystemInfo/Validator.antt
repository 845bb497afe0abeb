-- ===== src/SystemInfo/Validator.antt =====
-- systeminfo/validator.go
pub mod Dogus
pub mod Components
use ces_importer.Base.{
  String, ◌<>◌, ◌==◌, Option, none, some, List, [], ◌∷◌, Error, plain, wrap, join, contains,
  if◌then◌else◌,
}
use ces_importer.Base.Dict
use ces_importer.Base.Dict.{Dict}
use ces_importer.Migration.Types.{Dogu, Component, SystemInfo}
use ces_importer.SystemInfo.Names.{
  NameParser, get_dogu_name_without_namespace, get_excluded_dogu_names,
}

abbrev pub dogu_nginx : String
dogu_nginx = "official/nginx"

-- The dogus by simple name: of two with one name the later stays.
module _ (parse : NameParser) where
  unfoldable pub index_dogus : List Dogu → Dict Dogu → Dict Dogu
  index_dogus [] m = m
  index_dogus (d ∷ ds) m =
      index_dogus ds (Dict.insert (get_dogu_name_without_namespace parse d.name) d m)

  abbrev check_version : Dogu → Dogu → Option Error → Option Error
  check_version ex_dogu im_dogu result =
      if im_dogu.version == ex_dogu.version
      then result
      else join result (
          some (
            plain (
              "version discrepancy for dogu " <> ex_dogu.name <> ". Source instance version: "
              <> ex_dogu.version <> ", Target instance version: " <> im_dogu.version)))

  -- The map without the dogu, and the error.
  unfoldable pub validate_regular_dogu : Dogu → Dict Dogu → Option Error → Dict Dogu × Option Error
  validate_regular_dogu ex_dogu im_dogu_map result =
      let ex_dogu_name = get_dogu_name_without_namespace parse ex_dogu.name in
      elim (Dict.lookup ex_dogu_name im_dogu_map) [
        | none ↦ (
          im_dogu_map,
          join result (
              some (
                plain (
                  "dogu " <> ex_dogu.name <> " is not installed (required version: "
                  <> ex_dogu.version <> ") \n"))),
        )
        | some im_dogu ↦ (Dict.erase ex_dogu_name im_dogu_map, check_version ex_dogu im_dogu result)
      ]

  -- The loop over the exporting system's dogus.
  unfoldable pub validate_loop :
      List String → List Dogu → Dict Dogu → Option Error → Dict Dogu × Option Error
  validate_loop excluded [] m result = (m, result)
  validate_loop excluded (d ∷ ds) m result =
      let name = get_dogu_name_without_namespace parse d.name in
      let skipped = validate_loop excluded ds m result in
      let checked =
        let (m', result') = validate_regular_dogu d m result in
        validate_loop excluded ds m' result' in
      if contains excluded name then skipped else if d.name == dogu_nginx then skipped else checked

  -- Excluded dogus must not be flagged as missing on the exporting system.
  unfoldable pub remove_excluded : List String → Dict Dogu → Dict Dogu
  remove_excluded [] m = m
  remove_excluded (name ∷ names) m = remove_excluded names (Dict.erase name m)

  -- What is left in the map is installed on the importing system only.
  unfoldable pub report_extra : Dict Dogu → Option Error → Option Error
  report_extra [] result = result
  report_extra ((name, _) ∷ m) result = report_extra m (
      join result (
        some (
          plain (
            "dogu " <> name
            <> " is installed in the importing system but not present in the exporting system \n"))))

  unfoldable pub validate_dogus : List String → SystemInfo → SystemInfo → Option Error
  validate_dogus excluded_dogus im_info ex_info =
      let excluded_dogu_names = get_excluded_dogu_names parse excluded_dogus in
      let (m, result) =
        validate_loop excluded_dogu_names ex_info.dogus (index_dogus im_info.dogus []) none in
      report_extra (remove_excluded excluded_dogu_names m) result

unfoldable pub index_components : List Component → Dict Component → Dict Component
index_components [] m = m
index_components (c ∷ cs) m = index_components cs (Dict.insert c.name c m)

-- A missing key reads as the zero value, whose name is empty.
unfoldable pub component_at : String → Dict Component → Component
component_at k m = elim (Dict.lookup k m) [ none ↦ record { name = ""; version = "" } | some c ↦ c ]

unfoldable pub validate_component : Dict Component → Component → Option Error → Option Error
unfolding component_at
validate_component m c result =
    let im_component = component_at c.name m in
    if im_component.name == ""
    then join result (
        some (
          plain (
            "component " <> c.name <> " is not installed (required version: " <> c.version
            <> ") \n")))
    else if im_component.version == c.version
    then result
    else join result (
        some (
          plain (
            "version discrepancy for component " <> c.name <> ". Source instance version: "
            <> c.version <> ", Target instance version: " <> im_component.version <> " \n")))

unfoldable pub validate_components_loop :
    Dict Component → List Component → Option Error → Option Error
validate_components_loop m [] result = result
validate_components_loop m (c ∷ cs) result =
    validate_components_loop m cs (validate_component m c result)

unfoldable pub validate_components : SystemInfo → SystemInfo → Option Error
validate_components im_info ex_info =
    validate_components_loop (index_components im_info.components []) ex_info.components none

module _ (parse : NameParser) where
  unfoldable pub do_validate_system_info : List String → SystemInfo → SystemInfo → Option Error
  do_validate_system_info excluded ex_info im_info =
      join (validate_dogus parse excluded im_info ex_info) (validate_components im_info ex_info)

  unfoldable pub validate : List String → SystemInfo → SystemInfo → Option Error
  unfolding do_validate_system_info
  validate excluded ex_info im_info = elim (do_validate_system_info excluded ex_info im_info) [
    | none ↦ none
    | some e ↦ some (wrap "could not validate system info" e)
  ]

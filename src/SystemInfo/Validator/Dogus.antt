-- ===== src/SystemInfo/Validator/Dogus.antt =====
-- What `validateDogus` accepts: the map of the importing system's dogus is followed through the loop.
use ces_importer.Base.{
  String, ◌==◌, ◌≡◌, refl, ◌↔◌, Bool, true, false, ◌&&◌, ◌||◌, not, Option, none, some, List, [],
  ◌∷◌, Error, join, join-eq-none, plain, ◌<>◌, ◌≢◌, contains, if◌then◌else◌, arith,
}
use mathlib.Core.Path.{fun_ext}
use ces_importer.Base.Dict
use ces_importer.Base.Dict.{Dict}
use ces_importer.Migration.Types.{Dogu, SystemInfo}
use ces_importer.SystemInfo.Names.{
  NameParser, get_dogu_name_without_namespace, get_excluded_dogu_names,
}
use ces_importer.SystemInfo.Validator.{
  dogu_nginx, index_dogus, validate_regular_dogu, validate_loop, remove_excluded, report_extra,
  validate_dogus,
}

module _ (parse : NameParser) where
  abbrev simple : Dogu → String
  simple d = get_dogu_name_without_namespace parse d.name

  -- The exporter's dogu takes part in the comparison.
  abbrev pub is_compared : List String → Dogu → Bool
  is_compared excluded d = not (contains excluded (simple d)) && not (d.name == dogu_nginx)

  -- Some dogu that takes part has the simple name.
  abbrev pub requires : List String → List Dogu → String → Bool
  requires excluded [] n = false
  requires excluded (d ∷ ds) n = (is_compared excluded d && simple d == n) || requires excluded ds n

  -- No two dogus that take part share their simple name.
  abbrev pub DistinctNames : List String → List Dogu → Type 0
  DistinctNames excluded [] = Unit
  DistinctNames excluded (d ∷ ds) =
      (is_compared excluded d ≡ true → requires excluded ds (simple d) ≡ false)
      × DistinctNames excluded ds

  -- The version under which a dogu is found.
  abbrev version_at : Dict Dogu → String → Option String
  version_at m n = elim (Dict.lookup n m) [ none ↦ none | some d ↦ some d.version ]

  -- Each dogu that takes part is found with its version.
  abbrev pub AllInstalled : List String → List Dogu → (String → Option String) → Type 0
  AllInstalled excluded [] version_of = Unit
  AllInstalled excluded (d ∷ ds) version_of =
      (is_compared excluded d ≡ true → version_of (simple d) ≡ some d.version)
      × AllInstalled excluded ds version_of

  module _ (excluded : List String) where
    lookup-validate_regular_dogu :
        (n : String) (d : Dogu) (m : Dict Dogu) (r : Option Error)
        → Dict.lookup n (validate_regular_dogu parse d m r).0
          ≡ (if simple d == n then none else Dict.lookup n m)
    unfolding validate_regular_dogu
    lookup-validate_regular_dogu n d m r = ground (arith, Dict.lookup-erase n (simple d) m)

    -- The loop takes the names that are required out of the map, whatever their versions.
    lookup-validate_loop :
        (n : String) (ds : List Dogu) (m : Dict Dogu) (r : Option Error)
        → Dict.lookup n (validate_loop parse excluded ds m r).0
          ≡ (if requires excluded ds n then none else Dict.lookup n m)
    unfolding validate_loop
    lookup-validate_loop n [] m r = refl
    lookup-validate_loop n (d ∷ ds) m r =
        let (m', r') = validate_regular_dogu parse d m r in
        ground (
          arith,
          lookup-validate_loop n ds m r,
          lookup-validate_loop n ds m' r',
          lookup-validate_regular_dogu n d m r,
        )

    lookup-remove_excluded :
        (n : String) (names : List String) (m : Dict Dogu)
        → Dict.lookup n (remove_excluded parse names m)
          ≡ (if contains names n then none else Dict.lookup n m)
    unfolding remove_excluded
    lookup-remove_excluded n [] m = refl
    lookup-remove_excluded n (x ∷ names) m =
        ground (arith, lookup-remove_excluded n names (Dict.erase x m), Dict.lookup-erase n x m)

    validate_regular_dogu-eq-none :
        (d : Dogu) (m : Dict Dogu) (r : Option Error)
        → ((validate_regular_dogu parse d m r).1 ≡ none)
          ↔ ((r ≡ none) × (version_at m (simple d) ≡ some d.version))
    unfolding validate_regular_dogu join
    validate_regular_dogu-eq-none d m r = ground arith

    -- Taking a name out of the map does not matter to dogus that need other names.
    AllInstalled-validate_regular_dogu :
        (d : Dogu) (m : Dict Dogu) (r : Option Error) (ds : List Dogu)
        → requires excluded ds (simple d) ≡ false
        → AllInstalled excluded ds (version_at (validate_regular_dogu parse d m r).0)
          ↔ AllInstalled excluded ds (version_at m)
    AllInstalled-validate_regular_dogu d m r [] h = (λ _. tt, λ _. tt)
    AllInstalled-validate_regular_dogu d m r (x ∷ ds) h = ground (
      arith,
      AllInstalled-validate_regular_dogu d m r ds (ground arith),
      lookup-validate_regular_dogu (simple x) d m r,
    )

    validate_loop-eq-none :
        (ds : List Dogu) (m : Dict Dogu) (r : Option Error)
        → DistinctNames excluded ds
        → ((validate_loop parse excluded ds m r).1 ≡ none)
          ↔ ((r ≡ none) × AllInstalled excluded ds (version_at m))
    unfolding validate_loop
    validate_loop-eq-none [] m r h = ground arith
    validate_loop-eq-none (d ∷ ds) m r h =
        let (m', r') = validate_regular_dogu parse d m r in
        ground (
          arith,
          validate_loop-eq-none ds m r h.1,
          validate_loop-eq-none ds m' r' h.1,
          validate_regular_dogu-eq-none d m r,
          AllInstalled-validate_regular_dogu d m r ds,
        )

  report_extra-eq-none :
      (m : Dict Dogu) (r : Option Error) → (report_extra parse m r ≡ none) ↔ ((r ≡ none) × (m ≡ []))
  unfolding report_extra
  report_extra-eq-none [] r = ground arith
  report_extra-eq-none ((n, d) ∷ m) r =
      let e = plain (
        "dogu " <> n
        <> " is installed in the importing system but not present in the exporting system \n") in
      ground (arith, report_extra-eq-none m (join r (some e)), join-eq-none r (some e))

  -- The last dogu of the list with the simple name.
  abbrev pub latest : List Dogu → String → Option Dogu
  latest [] n = none
  latest (d ∷ ds) n = elim (latest ds n) [
    | some later ↦ some later
    | none ↦ if simple d == n then some d else none
  ]

  abbrev pub latest_version : List Dogu → String → Option String
  latest_version ds n = elim (latest ds n) [ none ↦ none | some d ↦ some d.version ]

  lookup-index_dogus :
      (n : String) (ds : List Dogu) (m : Dict Dogu)
      → Dict.lookup n (index_dogus parse ds m)
        ≡ elim (latest ds n) [ some d ↦ some d | none ↦ Dict.lookup n m ]
  unfolding index_dogus
  lookup-index_dogus n [] m = refl
  lookup-index_dogus n (d ∷ ds) m = ground (
    arith,
    lookup-index_dogus n ds (Dict.insert (simple d) d m),
    Dict.lookup-insert n (simple d) d m,
  )

  version_at-index_dogus :
      (ds : List Dogu) (n : String) → version_at (index_dogus parse ds []) n ≡ latest_version ds n
  unfolding Dict.lookup
  version_at-index_dogus ds n = ground (arith, lookup-index_dogus n ds [])

  -- Every dogu of the importing system is excluded or has a counterpart that takes part.
  abbrev pub NoExtra : List String → List Dogu → List Dogu → Type 0
  NoExtra excluded ex_dogus im_dogus =
      (n : String)
      → latest im_dogus n ≢ none
      → (contains excluded n || requires excluded ex_dogus n) ≡ true

  module _ (excluded : List String) (ex_dogus im_dogus : List Dogu) (r : Option Error) where
    abbrev left_over : Dict Dogu
    left_over =
        remove_excluded parse excluded
          (validate_loop parse excluded ex_dogus (index_dogus parse im_dogus []) r).0

    lookup-left_over :
        (n : String)
        → Dict.lookup n left_over ≡ (
            if contains excluded n || requires excluded ex_dogus n
            then none
            else Dict.lookup n (index_dogus parse im_dogus []))
    lookup-left_over n = ground (
      arith,
      lookup-remove_excluded excluded n excluded
          (validate_loop parse excluded ex_dogus (index_dogus parse im_dogus []) r).0,
      lookup-validate_loop excluded n ex_dogus (index_dogus parse im_dogus []) r,
    )

    NoExtra-left_over :
        NoExtra excluded ex_dogus im_dogus → (n : String) → Dict.lookup n left_over ≡ none
    unfolding Dict.lookup
    NoExtra-left_over h n =
        ground (arith, h n, lookup-left_over n, lookup-index_dogus n im_dogus [])

    left_over-NoExtra :
        ((n : String) → Dict.lookup n left_over ≡ none) → NoExtra excluded ex_dogus im_dogus
    unfolding Dict.lookup
    left_over-NoExtra h n p =
        ground (arith, h n, lookup-left_over n, lookup-index_dogus n im_dogus [])

  -- `validateDogus` returns nil exactly when, of the dogus of the exporting system that are neither excluded
  -- nor official/nginx, each is the last dogu of its simple name on the importing system with the same
  -- version, and each dogu of the importing system is excluded or has such a counterpart. The condition
  -- is that no two of those dogus share a simple name.
  pub validate_dogus-eq-none :
      (excluded_dogus : List String) (im_info ex_info : SystemInfo)
      → let excluded = get_excluded_dogu_names parse excluded_dogus in
        DistinctNames excluded ex_info.dogus
        → (validate_dogus parse excluded_dogus im_info ex_info ≡ none) ↔ (
            AllInstalled excluded ex_info.dogus (latest_version im_info.dogus)
            × NoExtra excluded ex_info.dogus im_info.dogus)
  unfolding validate_dogus
  validate_dogus-eq-none excluded_dogus im_info ex_info distinct = (
    λ h.
        let parts = (report_extra-eq-none left result).0 h in
        (
          rw versions at (looped.0 parts.0).1,
          left_over-NoExtra excluded ex_info.dogus im_info.dogus none
              ((Dict.eq-nil_iff left).0 parts.1),
        ),
    λ (all_installed, no_extra). (report_extra-eq-none left result).1 (
      looped.1 (refl, rw (← versions) at all_installed),
      (Dict.eq-nil_iff left).1
          (NoExtra-left_over excluded ex_info.dogus im_info.dogus none no_extra),
    ),
  )
    where
      excluded : List String
      excluded = get_excluded_dogu_names parse excluded_dogus

      index : Dict Dogu
      index = index_dogus parse im_info.dogus []

      result : Option Error
      result = (validate_loop parse excluded ex_info.dogus index none).1

      left : Dict Dogu
      left = left_over excluded ex_info.dogus im_info.dogus none

      versions : version_at index ≡ latest_version im_info.dogus
      versions = fun_ext (version_at-index_dogus im_info.dogus)

      looped : (result ≡ none) ↔ (
          ◌≡◌ {A = Option Error} none none × AllInstalled excluded ex_info.dogus (version_at index))
      looped = validate_loop-eq-none excluded ex_info.dogus index none distinct

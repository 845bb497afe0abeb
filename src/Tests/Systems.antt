-- ===== src/Tests/Systems.antt =====
-- Two systems that fit but for nginx, and a resize that the third look finds done.
use ces_importer.Base.{
  str_dec, ℕ, suc, ◌<◌, String, ◌≡◌, ◌↔◌, refl, Bool, true, false, none, [], ◌∷◌, plain, ok, err,
  if◌then◌else◌, ltb,
}
use ces_importer.Migration.Types.{Dogu, Component, SystemInfo}
use ces_importer.SystemInfo.Names.{
  NameParser, get_excluded_dogu_names, get_dogu_name_without_namespace,
}
use ces_importer.SystemInfo.Validator.{validate_dogus}
use ces_importer.SystemInfo.Validator.Dogus.{
  AllInstalled, latest_version, NoExtra, validate_dogus-eq-none,
}
use ces_importer.SystemInfo.Resizer.{
  DoguVolumeResizer, Resize, wait_for_pvc_resize, resize_dogus_if_needed,
}
use ces_importer.SystemInfo.Resizer
use ces_importer.SystemInfo.Resizer.Resized.{IsLarge, wait_for_pvc_resize-eq-none}

-- The parser of the tests knows one dogu.
abbrev pub parse : NameParser
parse n =
    if str_dec_true n "official/redmine"
    then ok (record { namespace = "official"; simple_name = "redmine" })
    else err (plain "dogu name needs to be in the form 'namespace/dogu'")
  where
    str_dec_true : String → String → Bool
    str_dec_true a b = elim (str_dec a b) [ yes _ ↦ true | no _ ↦ false ]

abbrev pub redmine : ℕ → Dogu
redmine size = record {
  name = "official/redmine";
  version = "5.1.3-1";
  volume = record { size_in_bytes = size };
}

abbrev pub k8s_core : Component
k8s_core = record { name = "k8s-dogu-operator"; version = "3.0.0" }

abbrev pub system : ℕ → SystemInfo
system size = record {
  fqdn = "ces.example";
  is_multinode = true;
  dogus = redmine size ∷ [];
  components = k8s_core ∷ [];
}

validate_dogus-eq-none_example :
    let excluded = get_excluded_dogu_names parse ("official/nginx" ∷ []) in
    (validate_dogus parse ("official/nginx" ∷ []) (system 1) (system 2) ≡ none) ↔ (
      AllInstalled parse excluded (redmine 2 ∷ []) (latest_version parse (redmine 1 ∷ []))
      × NoExtra parse excluded (redmine 2 ∷ []) (redmine 1 ∷ []))
validate_dogus-eq-none_example =
    validate_dogus-eq-none parse ("official/nginx" ∷ []) (system 1) (system 2) ((λ _. refl), tt)

-- The world counts the looks at the claim, which has 20 bytes from the third on.
abbrev pub resizer : DoguVolumeResizer ℕ
resizer = record {
  parse = parse;
  parse_version = λ v. ok v;
  get_descriptor = λ n v w. (ok (false ∷ true ∷ []), w);
  get_dogu = λ n w. (ok tt, w);
  update_dogu = λ n size w. (none, w);
  get_pvc =
      λ n w. ((if ltb w 1 then err (plain "timeout") else ok (if ltb w 2 then 10 else 20)), suc w);
  sleep = λ w. w;
  excluded_dogus = [];
}

wait_for_pvc_resize-eq-none_example :
    ((wait_for_pvc_resize resizer 3 "redmine" 15 0).0 ≡ none
      → (n : ℕ) × (n < 3) × IsLarge resizer "redmine" 15 n 0)
    × ((n : ℕ)
        → n < 3
        → IsLarge resizer "redmine" 15 n 0
        → (wait_for_pvc_resize resizer 3 "redmine" 15 0).0 ≡ none)
wait_for_pvc_resize-eq-none_example = wait_for_pvc_resize-eq-none resizer 3 "redmine" 15 0

resized : (resize_dogus_if_needed resizer (redmine 15 ∷ []) (redmine 10 ∷ []) 0).0 ≡ none
unfolding resize_dogus_if_needed Resizer.resize_all Resizer.collect Resizer.decide Resizer.resize
    Resizer.wait_for_pvc_resize Resizer.has_volume_with_backup Resizer.any_true Resizer.find_dogu
    Resizer.excluded_dogus get_excluded_dogu_names get_dogu_name_without_namespace str_dec
resized = refl

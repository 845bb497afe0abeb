-- ===== src/Tests/Config.antt =====
-- An import of a global configuration into a registry that keeps a list of its settings, the last of which holds.
use ces_importer.Base.{
  false, List, subst, str_dec, String, ◌==◌, ◌≡◌, refl, Bool, Option, none, some, [], ◌∷◌, ◌++◌,
  Result, ok, if◌then◌else◌, arith,
}
use ces_importer.Base.Dict
use ces_importer.Base.Dict.{Dict}
use ces_importer.Importer.{found}
use ces_importer.Migration.Types.{GlobalConfig, KeyValue}
use ces_importer.Migration.Fqdn
use ces_importer.Migration.Config.Dogus
use ces_importer.Migration.Config.Dogus.{
  DoguConfigRepo, DoguConfigImporter, current_config, import_dogu_config_with_repo,
}
use ces_importer.Migration.Config.Dogus.Restored.{expected, import_dogu_config_with_repo-expected}
use ces_importer.Migration.Config.Global
use ces_importer.Migration.Config.Global.{
  Registry, GlobalConfigRepo, is_kept, current, import_global_config,
}
use ces_importer.Migration.Config.Global.Merge.{
  last_at, entries, IsLawful, import_global_config-merged,
}

abbrev registry : Registry (Dict String)
registry = record { empty = []; set = λ k v c. ok (c ++ (k, v) ∷ []); get_all = λ c. c }

pub last_at-append :
    (j k v : String) (o : Option String) (c : Dict String)
    → last_at j o (c ++ (k, v) ∷ []) ≡ (if k == j then some v else last_at j o c)
last_at-append j k v o [] = refl
last_at-append j k v o ((i, x) ∷ c) = last_at-append j k v (if i == j then some x else o) c

registry-IsLawful : IsLawful registry (λ c j. last_at j none c)
registry-IsLawful = record {
  empty_reads = λ j. refl;
  set_reads = λ k v c c' j h.
      subst (λ x. last_at j none x ≡ (if k == j then some v else last_at j none c))
        {x = c ++ (k, v) ∷ []} {y = c'} (ground arith) (last_at-append j k v none c);
  get_all_reads = λ c j. refl;
}

-- The world is the saved configuration.
abbrev repo : GlobalConfigRepo (Dict String) (Dict String)
repo = record { get = λ w. (found w, w); create = λ c w. (ok c, c); update = λ c w. (none, c) }

abbrev before : Dict String
before = ("fqdn", "new.example") ∷ ("admin_group", "old") ∷ []

abbrev exported : GlobalConfig
exported =
    record { key = "/fqdn"; value = "old.example" }
    ∷ record { key = "admin_group"; value = "admins" }
    ∷ []

-- A pattern matches itself only.
abbrev match : String → String → Result Bool
match pattern key = ok (pattern == key)

abbrev after : Dict String
after = ("fqdn", "new.example") ∷ ("admin_group", "admins") ∷ []

imports : import_global_config match registry [] repo exported before ≡ (none, after)
unfolding import_global_config Global.current Global.new_config Global.take_over
    Global.add_config_to_keep_to_registry Global.is_kept Global.matches_any_key_by_pattern
    Global.matches_any Fqdn.trim_slash str_dec
imports = refl

import_global_config-merged_example :
    (previous : Dict String) × (gc : Dict String) × ((current match registry [] repo before).0
      ≡ ok previous)
    × (repo.update gc (current match registry [] repo before).1 ≡ (none, after))
    × ((j : String)
        → last_at j none gc ≡ (
            if is_kept match [] j
            then last_at j none previous
            else last_at j none (entries exported)))
import_global_config-merged_example =
    import_global_config-merged match registry [] (λ c j. last_at j none c) registry-IsLawful repo
      exported before after imports

abbrev dogu_repo : DoguConfigRepo (Dict String) (Dict String)
dogu_repo = record {
  get = λ n w. (found w, w);
  create = λ n c w. (ok c, c);
  update = λ n c w. (none, c);
}

abbrev dogus : DoguConfigImporter (Dict String) (Dict String)
dogus = record {
  registry = registry;
  get_value = λ c j. last_at j none c;
  dogu_config_repo = dogu_repo;
  sensitive_dogu_config_repo = dogu_repo;
  excluded_dogu_config_keys = [];
  open_file = λ n w. (none, w);
  write_file = λ n m w. (none, w);
  is_not_exist = λ e. false;
}

-- Of two excluded keys the exporter has one; the other is lost.
abbrev old_values : Dict String
old_values = ("logging/root", "WARN") ∷ ("theme", "dark") ∷ []

abbrev new_values : List KeyValue
new_values =
    record { key = "logging/root"; value = "DEBUG" } ∷ record { key = "title"; value = "Wiki" } ∷ []

abbrev excluded : List String
excluded = "logging/root" ∷ "theme" ∷ []

abbrev restored : Dict String
restored = ("logging/root", "WARN") ∷ ("title", "Wiki") ∷ []

dogu_imports :
    import_dogu_config_with_repo dogus "redmine" new_values dogu_repo excluded old_values
    ≡ (none, restored)
unfolding import_dogu_config_with_repo current_config Dogus.values_to_set Dogus.set_values
    Dogus.set_original_value_for_key Dict.insert Fqdn.trim_slash str_dec
dogu_imports = refl

import_dogu_config_with_repo-expected_example :
    (original : Dict String) × (c : Dict String) × ((current_config dogus dogu_repo "redmine"
        old_values).0
      ≡ ok original)
    × (dogu_repo.update "redmine" c (current_config dogus dogu_repo "redmine" old_values).1
        ≡ (none, restored))
    × ((j : String) → last_at j none c ≡ expected dogus excluded original j none new_values)
import_dogu_config_with_repo-expected_example =
    import_dogu_config_with_repo-expected dogus registry-IsLawful "redmine" new_values dogu_repo
      excluded old_values restored dogu_imports

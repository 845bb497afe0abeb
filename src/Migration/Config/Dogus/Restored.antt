-- ===== src/Migration/Config/Dogus/Restored.antt =====
-- What the configuration of a dogu holds after an import.
use ces_importer.Base.{
  ap, String, ◌==◌, ◌≡◌, refl, ◌∙◌, true, false, Option, none, some, List, [], ◌∷◌, ok, arith,
  Result-cases, Option-cases, Bool-cases, inl, inr, if◌then◌else◌, contains, of_eq, subst,
}
use ces_importer.Base.Dict
use ces_importer.Base.Dict.{Dict}
use ces_importer.Migration.Types.{KeyValue}
use ces_importer.Migration.Fqdn.{trim_slash}
use ces_importer.Migration.Config.Global.Merge.{IsLawful}
use ces_importer.Migration.Config.Dogus.{
  DoguConfigImporter, DoguConfigRepo, set_original_value_for_key, values_to_set, set_values,
  current_config, import_dogu_config_with_repo,
}

-- No key twice.
abbrev pub Distinct : Dict String → Type 0
Distinct [] = Unit
Distinct ((k, v) ∷ m) = (Dict.lookup k m ≡ none) × Distinct m

insert-Distinct : (k v : String) (m : Dict String) → Distinct m → Distinct (Dict.insert k v m)
unfolding Dict.insert Dict.lookup
insert-Distinct k v [] d = (refl, tt)
insert-Distinct k v ((i, x) ∷ m) (fresh, d) = elim (Bool-cases (i == k)) [
  | inl p ↦ rw (p, Dict.insert) (subst (λ x. Dict.lookup x m ≡ none) (of_eq p) fresh, d)
  | inr p ↦
      rw (p, Dict.insert)
        (ground (arith, Dict.lookup-insert i k v m, fresh, p), insert-Distinct k v m d)
]

abbrev or_else : Option String → Option String → Option String
or_else (some v) o = some v
or_else none o = o

or_else-none : (o : Option String) → or_else o none ≡ o
or_else-none none = refl
or_else-none (some v) = refl

module _ {W C : Type 0} (dci : DoguConfigImporter W C) where
  -- The value of a key after the loop: of an excluded key the original value, and else the exporter's last one.
  abbrev pub expected : List String → C → String → Option String → List KeyValue → Option String
  expected excluded original j v [] = v
  expected excluded original j v (kv ∷ kvs) =
      expected excluded original j
        (if kv.key == j
          then (if contains excluded (trim_slash j)
              then or_else (dci.get_value original j) v
              else some kv.value)
          else v)
        kvs

module _ {W C : Type 0} (dci : DoguConfigImporter W C)
    (lawful : IsLawful dci.registry dci.get_value) where
  set_values-read :
      (m : Dict String) (c c' : C) (j : String)
      → Distinct m
      → set_values dci m c ≡ ok c'
      → dci.get_value c' j ≡ or_else (Dict.lookup j m) (dci.get_value c j)
  unfolding set_values Dict.lookup
  set_values-read [] c c' j d h = ground arith
  set_values-read ((k, v) ∷ m) c c' j (fresh, d) h = elim (Result-cases (dci.registry.set k v c)) [
    | inr (e, p) ↦ ground arith
    | inl (c1, p) ↦ ground (
      arith,
      set_values-read m c1 c' j d (ground arith),
      lawful.set_reads k v c c1 j p,
      λ (e : (k == j) ≡ true). subst (λ x. Dict.lookup x m ≡ none) (of_eq e) fresh,
    )
  ]

  set_original_value_for_key-Distinct :
      (original : C) (k : String) (m : Dict String)
      → Distinct m
      → Distinct (set_original_value_for_key dci original k m)
  unfolding set_original_value_for_key
  set_original_value_for_key-Distinct original k m d =
      elim (dci.get_value original k)
        as (λ o.
          Distinct (elim o as (λ _. Dict String) [ some v ↦ Dict.insert k v m | none ↦ m ])) [
            | none ↦ d
            | some v ↦ insert-Distinct k v m d
          ]

  -- One entry of the exporter, put into the map.
  abbrev put : List String → C → KeyValue → Dict String → Dict String
  put excluded original kv m =
      if contains excluded (trim_slash kv.key)
      then set_original_value_for_key dci original kv.key m
      else Dict.insert kv.key kv.value m

  put-Distinct :
      (excluded : List String) (original : C) (kv : KeyValue) (m : Dict String)
      → Distinct m
      → Distinct (put excluded original kv m)
  put-Distinct excluded original kv m d =
      elim (contains excluded (trim_slash kv.key))
        as (λ b. Distinct (
          if b
          then set_original_value_for_key dci original kv.key m
          else Dict.insert kv.key kv.value m)) [
            | true ↦ set_original_value_for_key-Distinct original kv.key m d
            | false ↦ insert-Distinct kv.key kv.value m d
          ]

  lookup-put :
      (excluded : List String) (original : C) (kv : KeyValue) (m : Dict String) (j : String)
      → Dict.lookup j (put excluded original kv m) ≡ (
          if kv.key == j
          then (if contains excluded (trim_slash j)
              then or_else (dci.get_value original j) (Dict.lookup j m)
              else some kv.value)
          else Dict.lookup j m)
  unfolding set_original_value_for_key
  lookup-put excluded original kv m j =
      let there : (kv.key == j) ≡ true
          → (contains excluded (trim_slash kv.key) ≡ contains excluded (trim_slash j)) =
        λ e. ap (λ x. contains excluded (trim_slash x)) (of_eq e) in
      let value : (kv.key == j) ≡ true
          → (dci.get_value original kv.key ≡ dci.get_value original j) =
        λ e. ap (dci.get_value original) (of_eq e) in
      elim (Option-cases (dci.get_value original kv.key)) [
        | inl p ↦ ground (arith, there, value, p, Dict.lookup-insert j kv.key kv.value m)
        | inr (v, p) ↦ ground (
          arith,
          there,
          value,
          p,
          Dict.lookup-insert j kv.key kv.value m,
          Dict.lookup-insert j kv.key v m,
        )
      ]

  values_to_set-Distinct :
      (excluded : List String) (original : C) (kvs : List KeyValue) (m : Dict String)
      → Distinct m
      → Distinct (values_to_set dci excluded original kvs m)
  unfolding values_to_set
  values_to_set-Distinct excluded original [] m d = d
  values_to_set-Distinct excluded original (kv ∷ kvs) m d =
      values_to_set-Distinct excluded original kvs _ (put-Distinct excluded original kv m d)

  lookup-values_to_set :
      (excluded : List String) (original : C) (kvs : List KeyValue) (m : Dict String) (j : String)
      → Dict.lookup j (values_to_set dci excluded original kvs m)
        ≡ expected dci excluded original j (Dict.lookup j m) kvs
  unfolding values_to_set
  lookup-values_to_set excluded original [] m j = refl
  lookup-values_to_set excluded original (kv ∷ kvs) m j =
      lookup-values_to_set excluded original kvs _ j
      ∙ ap (λ o. expected dci excluded original j o kvs) (lookup-put excluded original kv m j)

  -- With a lawful registry, if the import of a dogu's configuration succeeds, then it has loaded or created a configuration and saved one that
  -- holds, at each key, the exporter's last value or, for an excluded key, the value of the loaded one. A
  -- key that the exporter's configuration does not have is gone, also if it is excluded.
  pub import_dogu_config_with_repo-expected :
      (name : String) (config : List KeyValue) (repo : DoguConfigRepo W C) (excluded : List String)
      (w w' : W)
      → import_dogu_config_with_repo dci name config repo excluded w ≡ (none, w')
      → (original : C) × (c : C) × ((current_config dci repo name w).0 ≡ ok original)
        × (repo.update name c (current_config dci repo name w).1 ≡ (none, w'))
        × ((j : String) → dci.get_value c j ≡ expected dci excluded original j none config)
  unfolding import_dogu_config_with_repo Dict.lookup
  import_dogu_config_with_repo-expected name config repo excluded w w' h =
      elim (Result-cases (current_config dci repo name w).0) [
        | inr (e, p) ↦ ground arith
        | inl (original, p) ↦
            let m = values_to_set dci excluded original config [] in
            elim (Result-cases (set_values dci m dci.registry.empty)) [
              | inr (e, q) ↦ ground arith
              | inl (c, q) ↦ (
                original,
                c,
                p,
                ground arith,
                λ j.
                    set_values-read m dci.registry.empty c j
                      (values_to_set-Distinct excluded original config [] tt) q
                    ∙ (rw (lawful.empty_reads j, lookup-values_to_set excluded original config [] j)
                        (or_else-none _)),
              )
            ]
      ]

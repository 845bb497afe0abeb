-- ===== src/Migration/Config/Global/Merge.antt =====
-- What the global configuration holds after an import.
use ces_importer.Base.{
  of_eq, subst, String, ◌==◌, ◌≡◌, Bool, true, false, Option, none, some, List, [], ◌∷◌, Result, ok,
  arith, Result-cases, Bool-cases, inl, inr, if◌then◌else◌,
}
use ces_importer.Base.Dict.{Dict}
use ces_importer.Migration.Types.{GlobalConfig}
use ces_importer.Migration.Config.Global.{
  Registry, GlobalConfigRepo, is_kept, add_config_to_keep_to_registry, take_over, current,
  new_config, import_global_config,
}

-- The last value at a key; `v` if there is none.
abbrev pub last_at : String → Option String → Dict String → Option String
last_at j v [] = v
last_at j v ((k, x) ∷ m) = last_at j (if k == j then some x else v) m

abbrev pub entries : GlobalConfig → Dict String
entries [] = []
entries (kv ∷ kvs) = (kv.key, kv.value) ∷ entries kvs

-- `read c` gives the values of a configuration. An empty one has none, a set that succeeds sets one key, and all the
-- values are those that are read.
pub record IsLawful {C : Type 0} (reg : Registry C) (read : C → String → Option String)
    : Type 0 where
  pub empty_reads : (j : String) → read reg.empty j ≡ none
  pub set_reads :
      (k v : String) (c c' : C) (j : String)
      → reg.set k v c ≡ ok c'
      → read c' j ≡ (if k == j then some v else read c j)
  pub get_all_reads : (c : C) (j : String) → read c j ≡ last_at j none (reg.get_all c)

module _ {C : Type 0} (match : String → String → Result Bool) (reg : Registry C)
    (additional : List String) (read : C → String → Option String)
    (lawful : IsLawful reg read) where
  -- Keys that are equal are kept or not together.
  same_kept :
      (k j : String) (b : Bool)
      → is_kept match additional k ≡ b
      → (k == j) ≡ true
      → is_kept match additional j ≡ b
  same_kept k j b h e = subst (λ x. is_kept match additional x ≡ b) (of_eq e) h

  kept-read :
      (m : Dict String) (c c' : C) (j : String)
      → add_config_to_keep_to_registry match reg additional m c ≡ ok c'
      → read c' j ≡ (if is_kept match additional j then last_at j (read c j) m else read c j)
  unfolding add_config_to_keep_to_registry
  kept-read [] c c' j h = ground arith
  kept-read ((k, v) ∷ m) c c' j h = elim (Bool-cases (is_kept match additional k)) [
    | inr skipped ↦ ground (arith, kept-read m c c' j (ground arith), same_kept k j false skipped)
    | inl kept ↦ elim (Result-cases (reg.set k v c)) [
      | inr (e, p) ↦ ground arith
      | inl (c1, p) ↦ ground (
        arith,
        same_kept k j true kept,
        subst (λ o. read c' j ≡ (if is_kept match additional j then last_at j o m else o))
            (lawful.set_reads k v c c1 j p) (kept-read m c1 c' j (ground arith)),
      )
    ]
  ]

  take_over-read :
      (config : GlobalConfig) (c c' : C) (j : String)
      → take_over match reg additional config c ≡ ok c'
      → read c' j
        ≡ (if is_kept match additional j then read c j else last_at j (read c j) (entries config))
  unfolding take_over
  take_over-read [] c c' j h = ground arith
  take_over-read (kv ∷ config) c c' j h = elim (Bool-cases (is_kept match additional kv.key)) [
    | inl kept ↦
        ground (arith, take_over-read config c c' j (ground arith), same_kept kv.key j true kept)
    | inr free ↦ elim (Result-cases (reg.set kv.key kv.value c)) [
      | inr (e, p) ↦ ground arith
      | inl (c1, p) ↦ ground (
        arith,
        same_kept kv.key j false free,
        subst
            (λ o.
              read c' j ≡ (if is_kept match additional j then o else last_at j o (entries config)))
            (lawful.set_reads kv.key kv.value c c1 j p)
            (take_over-read config c1 c' j (ground arith)),
      )
    ]
  ]

  pub new_config-read :
      (previous gc : C) (config : GlobalConfig) (j : String)
      → new_config match reg additional previous config ≡ ok gc
      → read gc j
        ≡ (if is_kept match additional j then read previous j else last_at j none (entries config))
  unfolding new_config
  new_config-read previous gc config j h =
      elim (Result-cases
        (add_config_to_keep_to_registry match reg additional (reg.get_all previous) reg.empty)) [
          | inr (e, p) ↦ ground arith
          | inl (kept, p) ↦
              let first = kept-read (reg.get_all previous) reg.empty kept j p in
              let second = take_over-read config kept gc j (ground arith) in
              let old = lawful.get_all_reads previous j in
              let none_yet = lawful.empty_reads j in
              let fresh =
                subst
                  (λ o. read kept j ≡ (
                    if is_kept match additional j then last_at j o (reg.get_all previous) else o))
                  none_yet first in
              elim (Bool-cases (is_kept match additional j)) [
                | inl k ↦ ground (arith, k, fresh, second, old)
                | inr k ↦
                    let gone : read kept j ≡ none = ground (arith, k, fresh) in
                    ground (
                      arith,
                      k,
                      subst
                          (λ o. read gc j ≡ (
                            if is_kept match additional j then o else last_at j o (entries config)))
                          gone second,
                    )
              ]
        ]

  -- With a lawful registry, if `importGlobalConfig` succeeds, then it has loaded or created a configuration and saved one that holds, at each
  -- key that is kept, the value of the loaded one, and at each other key the exporter's last value; a key
  -- that is in neither is gone.
  pub import_global_config-merged :
      {W : Type 0} (repo : GlobalConfigRepo W C) (config : GlobalConfig) (w w' : W)
      → import_global_config match reg additional repo config w ≡ (none, w')
      → (previous : C) × (gc : C) × ((current match reg additional repo w).0 ≡ ok previous)
        × (repo.update gc (current match reg additional repo w).1 ≡ (none, w'))
        × ((j : String)
            → read gc j ≡ (
                if is_kept match additional j
                then read previous j
                else last_at j none (entries config)))
  unfolding import_global_config
  import_global_config-merged repo config w w' h =
      elim (Result-cases (current match reg additional repo w).0) [
        | inr (e, p) ↦ ground arith
        | inl (previous, p) ↦
            elim (Result-cases (new_config match reg additional previous config)) [
              | inr (e, q) ↦ ground arith
              | inl (gc, q) ↦
                  (previous, gc, p, ground arith, λ j. new_config-read previous gc config j q)
            ]
      ]

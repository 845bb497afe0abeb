-- ===== src/Migration/Config/Global/Kept.antt =====
-- What the import of the global configuration leaves as it is in the cluster.
use ces_importer.Base.{
  Keeps, ◌≡◌, ◌⊎◌, String, Bool, true, Option, none, List, Result, ok, arith, Result-cases, inl,
  inr,
}
use ces_importer.Importer.{found, missing, Answer-cases}
use ces_importer.Migration.Types.{GlobalConfig}
use ces_importer.Migration.Config.Global.{
  Registry, GlobalConfigRepo, is_kept, current, new_config, import_global_config,
}
use ces_importer.Migration.Config.Global.Merge.{IsLawful, new_config-read}

-- `global` gives the values that the cluster has. A configuration that is got has them, and is missing only if there are none; a created one has
-- what it is created with; after an update the cluster has the old values or the new ones.
pub record IsRepo {W C : Type 0} (repo : GlobalConfigRepo W C) (read : C → String → Option String)
    (global : W → String → Option String) : Type 0 where
  pub get_reads : (w : W) (c : C) (j : String) → (repo.get w).0 ≡ found c → read c j ≡ global w j
  pub get_misses : (w : W) (j : String) → (repo.get w).0 ≡ missing → global w j ≡ none
  pub get_keeps : (j : String) → Keeps (λ w. global w j) repo.get
  pub create_reads :
      (c c' : C) (w : W) (j : String) → (repo.create c w).0 ≡ ok c' → read c' j ≡ read c j
  pub create_keeps :
      (c : C) (w : W) (j : String)
      → read c j ≡ global w j
      → global (repo.create c w).1 j ≡ global w j
  pub update_sets :
      (c : C) (w : W) (j : String)
      → (global (repo.update c w).1 j ≡ global w j) ⊎ (global (repo.update c w).1 j ≡ read c j)

module _ {W C : Type 0} (match : String → String → Result Bool) (reg : Registry C)
    (additional : List String) (read : C → String → Option String) (lawful : IsLawful reg read)
    (repo : GlobalConfigRepo W C) where
  module _ {V : Type 0} (value : W → V) (get : Keeps value repo.get)
      (create : (c : C) → Keeps value (repo.create c))
      (update : (c : C) → Keeps value (repo.update c)) where
    current-Keeps : Keeps value (current match reg additional repo)
    unfolding current
    current-Keeps w = ground (arith, get w, create reg.empty (repo.get w).1)

    -- What the repository does not touch.
    pub import_global_config-Keeps :
        (config : GlobalConfig)
        → Keeps value (import_global_config match reg additional repo config)
    unfolding import_global_config
    import_global_config-Keeps config w =
        let loaded = current match reg additional repo w in
        elim (Result-cases loaded.0) [
          | inr (e, p) ↦ ground (arith, p, current-Keeps w)
          | inl (previous, p) ↦
              elim (Result-cases (new_config match reg additional previous config)) [
                | inr (e, q) ↦ ground (arith, p, q, current-Keeps w)
                | inl (gc, q) ↦ ground (arith, p, q, current-Keeps w, update gc loaded.1)
              ]
        ]

  module _ (global : W → String → Option String) (is_repo : IsRepo repo read global) where
    current-reads :
        (w : W) (j : String)
        → (global (current match reg additional repo w).1 j ≡ global w j)
          × ((previous : C)
              → (current match reg additional repo w).0 ≡ ok previous
              → read previous j ≡ global w j)
    unfolding current
    current-reads w j = elim (Answer-cases (repo.get w).0) [
      | inl (c, p) ↦ (
        ground (arith, p, is_repo.get_keeps j w),
        λ previous h. ground (arith, p, h, is_repo.get_reads w c j p),
      )
      | inr (inr (e, p)) ↦
          (ground (arith, p, is_repo.get_keeps j w), λ previous h. ground (arith, p, h))
      | inr (inl p) ↦
          let w1 = (repo.get w).1 in
          let none_yet = is_repo.get_misses w j p in
          (
            ground (
              arith,
              p,
              none_yet,
              lawful.empty_reads j,
              is_repo.get_keeps j w,
              is_repo.create_keeps reg.empty w1 j,
            ),
            λ previous h. elim (Result-cases (repo.create reg.empty w1).0) [
              | inr (e, q) ↦ ground (arith, p, q, h)
              | inl (c, q) ↦ ground (
                arith,
                p,
                q,
                h,
                none_yet,
                lawful.empty_reads j,
                is_repo.create_reads reg.empty c w1 j q,
              )
            ],
          )
    ]

    -- The value at a key that is kept stays, whether the import succeeds or fails.
    pub import_global_config-kept :
        (config : GlobalConfig) (j : String)
        → is_kept match additional j ≡ true
        → Keeps (λ w. global w j) (import_global_config match reg additional repo config)
    unfolding import_global_config
    import_global_config-kept config j kept w =
        let loaded = current match reg additional repo w in
        let (same, reads) = current-reads w j in
        elim (Result-cases loaded.0) [
          | inr (e, p) ↦ ground (arith, p, same)
          | inl (previous, p) ↦
              elim (Result-cases (new_config match reg additional previous config)) [
                | inr (e, q) ↦ ground (arith, p, q, same)
                | inl (gc, q) ↦ ground (
                  arith,
                  p,
                  q,
                  same,
                  reads previous p,
                  kept,
                  new_config-read match reg additional read lawful previous gc config j q,
                  is_repo.update_sets gc loaded.1 j,
                )
              ]
        ]

-- ===== src/Migration/Fqdn/Cluster.antt =====
-- What the managers of the fqdn and of the certificate call (migration/fqdn/interface.go): config maps, secrets, the
-- global configuration and client-go's retries. They are parameters, with the laws that they keep.
use ces_importer.Base.{
  subst, ap, String, ◌==◌, ◌≡◌, refl, ◌∙◌, Bool, true, false, Option, none, some, Error, Result, ok,
  if◌then◌else◌,
}
use ces_importer.Base.Dict.{Dict}

-- `configMapRepository` and `secretRepository`: an object is its name and its `Data`, which is not nil.
pub record Store (W : Type 0) : Type 0 where
  pub create : String → Dict String → W → Option Error × W
  pub update : String → Dict String → W → Option Error × W
  pub delete : String → W → Option Error × W
  pub get : String → W → Result (Dict String) × W

pub record Repositories (W C : Type 0) : Type 0 where
  -- `retry.OnError` with the default backoff; `retry.RetryOnConflict` is it with `is_conflict`
  pub on_error : (Error → Bool) → (W → Option Error × W) → W → Option Error × W
  pub is_not_found : Error → Bool
  pub is_already_exists : Error → Bool
  pub is_conflict : Error → Bool
  pub config_maps : Store W
  pub secrets : Store W
  -- `globalConfigRepository`, and `Get` and `Set` of a configuration
  pub get_global : W → Result C × W
  pub save_or_merge : C → W → Option Error × W
  pub get_value : C → String → Option String
  pub set_value : String → String → C → Result C

-- How a function is retried: again after an error that can be retried, and the last result counts.
pub data Tries {W : Type 0} (retriable : Error → Bool) (f : W → Option Error × W)
    : W → Option Error × W → Type 0 where
  last : {w : W} {r : Option Error × W} → f w ≡ r → Tries retriable f w r
  again :
      {w : W} {r : Option Error × W} (e : Error)
      → (f w).0 ≡ some e
      → retriable e ≡ true
      → Tries retriable f (f w).1 r
      → Tries retriable f w r

-- Writes of one object of the store do not change the value, and reads of no object do.
pub record Spares {W V : Type 0} (s : Store W) (n : String) (value : W → V) : Type 0 where
  pub create_spares : (d : Dict String) (w : W) → value (s.create n d w).1 ≡ value w
  pub update_spares : (d : Dict String) (w : W) → value (s.update n d w).1 ≡ value w
  pub delete_spares : (w : W) → value (s.delete n w).1 ≡ value w
  pub get_spares : (m : String) (w : W) → value (s.get m w).1 ≡ value w

pub Spares-map :
    {W V U : Type 0} {s : Store W} {n : String} {value : W → V} (f : V → U)
    → Spares s n value
    → Spares s n (λ w. f (value w))
Spares-map f spares = record {
  create_spares = λ d w. ap f (spares.create_spares d w);
  update_spares = λ d w. ap f (spares.update_spares d w);
  delete_spares = λ w. ap f (spares.delete_spares w);
  get_spares = λ m w. ap f (spares.get_spares m w);
}

-- `view` gives the stored objects. A write is of its own object only, and sets it if it succeeds.
pub record IsStore {W : Type 0} (s : Store W) (view : W → String → Option (Dict String))
    : Type 0 where
  pub get_reads : (n : String) (w : W) (d : Dict String) → (s.get n w).0 ≡ ok d → view w n ≡ some d
  pub create_sets :
      (n : String) (d : Dict String) (w : W)
      → (s.create n d w).0 ≡ none
      → view (s.create n d w).1 n ≡ some d
  pub update_sets :
      (n : String) (d : Dict String) (w : W)
      → (s.update n d w).0 ≡ none
      → view (s.update n d w).1 n ≡ some d
  pub get_keeps : (n : String) (w : W) (m : String) → view (s.get n w).1 m ≡ view w m
  pub others : (n m : String) → (n == m) ≡ false → Spares s n (λ w. view w m)

-- The whole: the values of the global configuration, the config maps and the secrets lie apart from each
-- other, a configuration that is saved with a value at a key has it afterwards, and retries are retries.
pub record IsCluster {W C : Type 0} (r : Repositories W C) (global : W → String → Option String)
    (config_map secret : W → String → Option (Dict String)) : Type 0 where
  pub tries :
      (retriable : Error → Bool) (f : W → Option Error × W) (w : W)
      → Tries retriable f w (r.on_error retriable f w)
  pub maps : IsStore r.config_maps config_map
  pub maps_global : (n : String) → Spares r.config_maps n global
  pub maps_secret : (n : String) → Spares r.config_maps n secret
  pub secrets : IsStore r.secrets secret
  pub secrets_global : (n : String) → Spares r.secrets n global
  pub secrets_map : (n : String) → Spares r.secrets n config_map
  pub get_global_reads :
      (w : W) (c : C) (k : String) → (r.get_global w).0 ≡ ok c → r.get_value c k ≡ global w k
  pub get_global_keeps : (w : W) → global (r.get_global w).1 ≡ global w
  pub get_global_map : (w : W) → config_map (r.get_global w).1 ≡ config_map w
  pub get_global_secret : (w : W) → secret (r.get_global w).1 ≡ secret w
  pub set_value_reads :
      (k v : String) (c c' : C) (j : String)
      → r.set_value k v c ≡ ok c'
      → r.get_value c' j ≡ (if k == j then some v else r.get_value c j)
  pub save_sets :
      (c : C) (w : W) (k v : String)
      → (r.save_or_merge c w).0 ≡ none
      → r.get_value c k ≡ some v
      → global (r.save_or_merge c w).1 k ≡ some v
  pub save_map : (c : C) (w : W) → config_map (r.save_or_merge c w).1 ≡ config_map w
  pub save_secret : (c : C) (w : W) → secret (r.save_or_merge c w).1 ≡ secret w

-- A value that no try changes is unchanged in the end, and the result is that of a try that finds it so.
pub Tries-keeps :
    {W V : Type 0} (retriable : Error → Bool) (f : W → Option Error × W) (value : W → V) (w : W)
    (r : Option Error × W)
    → ((v : W) → value (f v).1 ≡ value v)
    → Tries retriable f w r
    → (value r.1 ≡ value w) × (w1 : W) × (value w1 ≡ value w) × (f w1 ≡ r)
Tries-keeps retriable f value w r keeps (last p) =
    (subst (λ x. value x.1 ≡ value w) p (keeps w), w, refl, p)
Tries-keeps retriable f value w r keeps (again e p q t) =
    let (kept, w1, same, ended) = Tries-keeps retriable f value (f w).1 r keeps t in
    (kept ∙ keeps w, w1, same ∙ keeps w, ended)

-- ===== src/Tests/Managers.antt =====
-- A cluster in memory, for the managers of the fqdn and of the certificate.
use ces_importer.Base.{
  arith, ℕ, zero, suc, String, ◌==◌, ◌≡◌, refl, Bool, true, false, Option, none, some, Error, plain,
  Result, ok, err, [], ◌∷◌, str_dec, Option-cases, Bool-cases, inl, inr,
}
use ces_importer.Base.Dict
use ces_importer.Base.Dict.{Dict}
use ces_importer.Migration.Fqdn.Cluster.{
  Store, Repositories, Tries, last, again, Spares, IsStore, IsCluster,
}
use ces_importer.Migration.Fqdn.Rollback.{Apart}
use ces_importer.Migration.Types.{Configuration}
use ces_importer.Migration.Fqdn.Managers.{
  ecosystem_certificate, backup_certificate_once, create_or, update_secret, get_and_update,
  retriable,
}
use ces_importer.Migration.Fqdn.Managers.Views.{
  live_fqdn, saved_fqdn, live_certificate, saved_certificate,
}
use ces_importer.Migration.Fqdn.Managers.Refinement.{service_of, service_of-Apart}

pub record World : Type 0 where
  pub global : Dict String
  pub maps : Dict (Dict String)
  pub secrets : Dict (Dict String)

unfoldable pub is_named : String → Error → Bool
is_named s (plain t) = s == t
is_named s _ = false

-- At most five more tries.
unfoldable pub retry :
    ℕ → (Error → Bool) → (World → Option Error × World) → World → Option Error × World
retry zero retriable f w = f w
retry (suc n) retriable f w =
    let rest = retry n retriable f (f w).1 in
    elim (f w).0 [ none ↦ f w | some e ↦ elim (retriable e) [ true ↦ rest | false ↦ f w ] ]

retry-Tries :
    (n : ℕ) (retriable : Error → Bool) (f : World → Option Error × World) (w : World)
    → Tries retriable f w (retry n retriable f w)
unfolding retry
retry-Tries zero retriable f w = last refl
retry-Tries (suc n) retriable f w = elim (Option-cases (f w).0) [
  | inl p ↦ rw (p, retry) (last refl)
  | inr (e, p) ↦ elim (Bool-cases (retriable e)) [
    | inl q ↦ rw (p, q, retry) (again e p q (retry-Tries n retriable f (f w).1))
    | inr q ↦ rw (p, q, retry) (last refl)
  ]
]

module _ (objects : World → Dict (Dict String)) (set : Dict (Dict String) → World → World) where
  abbrev pub store : Store World
  store = record {
    create = λ n d w. elim (Dict.lookup n (objects w)) [
      | none ↦ (none, set (Dict.insert n d (objects w)) w)
      | some _ ↦ (some (plain "exists"), w)
    ];
    update = λ n d w. elim (Dict.lookup n (objects w)) [
      | none ↦ (some (plain "not found"), w)
      | some _ ↦ (none, set (Dict.insert n d (objects w)) w)
    ];
    delete = λ n w. elim (Dict.lookup n (objects w)) [
      | none ↦ (some (plain "not found"), w)
      | some _ ↦ (none, set (Dict.erase n (objects w)) w)
    ];
    get = λ n w. elim (Dict.lookup n (objects w)) [
      | none ↦ (err (plain "not found"), w)
      | some d ↦ (ok d, w)
    ];
  }

  store-Spares :
      {V : Type 0} (value : World → V)
      → ((x : Dict (Dict String)) (w : World) → value (set x w) ≡ value w)
      → (n : String) → Spares store n value
  store-Spares value kept n = record {
    create_spares = λ d w. ground (arith, kept (Dict.insert n d (objects w)) w);
    update_spares = λ d w. ground (arith, kept (Dict.insert n d (objects w)) w);
    delete_spares = λ w. ground (arith, kept (Dict.erase n (objects w)) w);
    get_spares = λ m w. ground arith;
  }

  store-IsStore :
      ((x : Dict (Dict String)) (w : World) → objects (set x w) ≡ x)
      → IsStore store (λ w n. Dict.lookup n (objects w))
  store-IsStore read = record {
    get_reads = λ n w d h. ground arith;
    create_sets = λ n d w h.
        ground
          (arith, h, read (Dict.insert n d (objects w)) w, Dict.lookup-insert n n d (objects w));
    update_sets = λ n d w h.
        ground
          (arith, h, read (Dict.insert n d (objects w)) w, Dict.lookup-insert n n d (objects w));
    get_keeps = λ n w m. ground arith;
    others = λ n m p. record {
      create_spares = λ d w.
          ground
            (arith, p, read (Dict.insert n d (objects w)) w, Dict.lookup-insert m n d (objects w));
      update_spares = λ d w.
          ground
            (arith, p, read (Dict.insert n d (objects w)) w, Dict.lookup-insert m n d (objects w));
      delete_spares = λ w.
          ground (arith, p, read (Dict.erase n (objects w)) w, Dict.lookup-erase m n (objects w));
      get_spares = λ j w. ground arith;
    };
  }

abbrev pub repositories : Repositories World (Dict String)
repositories = record {
  on_error = retry 5;
  is_not_found = is_named "not found";
  is_already_exists = is_named "exists";
  is_conflict = is_named "conflict";
  config_maps = store (λ w. w.maps) (λ x w. record w { maps = x });
  secrets = store (λ w. w.secrets) (λ x w. record w { secrets = x });
  get_global = λ w. (ok w.global, w);
  save_or_merge = λ c w. (none, record w { global = c });
  get_value = λ c k. Dict.lookup k c;
  set_value = λ k v c. ok (Dict.insert k v c);
}

abbrev pub global : World → String → Option String
global w k = Dict.lookup k w.global

abbrev pub maps : World → String → Option (Dict String)
maps w n = Dict.lookup n w.maps

abbrev pub secrets : World → String → Option (Dict String)
secrets w n = Dict.lookup n w.secrets

pub repositories-IsCluster : IsCluster repositories global maps secrets
repositories-IsCluster = record {
  tries = retry-Tries 5;
  maps = store-IsStore (λ w. w.maps) (λ x w. record w { maps = x }) (λ x w. refl);
  maps_global = store-Spares (λ w. w.maps) (λ x w. record w { maps = x }) global (λ x w. refl);
  maps_secret = store-Spares (λ w. w.maps) (λ x w. record w { maps = x }) secrets (λ x w. refl);
  secrets = store-IsStore (λ w. w.secrets) (λ x w. record w { secrets = x }) (λ x w. refl);
  secrets_global =
      store-Spares (λ w. w.secrets) (λ x w. record w { secrets = x }) global (λ x w. refl);
  secrets_map = store-Spares (λ w. w.secrets) (λ x w. record w { secrets = x }) maps (λ x w. refl);
  get_global_reads = λ w c k h. ground (arith, h);
  get_global_keeps = λ w. refl;
  get_global_map = λ w. refl;
  get_global_secret = λ w. refl;
  set_value_reads = λ k v c c' j h. ground (arith, h, Dict.lookup-insert j k v c);
  save_sets = λ c w k v h p. p;
  save_map = λ c w. refl;
  save_secret = λ c w. refl;
}

abbrev exporter : World → Result Configuration × World
exporter w = (ok (record { global_config = []; dogu_configs = []; backup_schedules = [] }), w)

service_of-Apart_example :
    Apart
      (service_of repositories exporter)
      (live_fqdn global)
      (saved_fqdn maps)
      (live_certificate secrets)
      (saved_certificate secrets)
service_of-Apart_example =
    service_of-Apart repositories global maps secrets repositories-IsCluster exporter
      (λ w. (refl, refl, refl))

abbrev pub world : World
world = record {
  global = ("fqdn", "old.example") ∷ ("certificate/type", "selfsigned") ∷ [];
  maps = [];
  secrets = ("ecosystem-certificate", ("tls.crt", "crt") ∷ ("tls.key", "key") ∷ []) ∷ [];
}

-- A backup, an update and a restore of the certificate.
backup_runs :
    saved_certificate secrets ((ecosystem_certificate repositories).backup world).1
    ≡ some (live_certificate secrets world)
unfolding retry backup_certificate_once create_or update_secret get_and_update Dict.lookup
    Dict.insert str_dec
backup_runs = refl

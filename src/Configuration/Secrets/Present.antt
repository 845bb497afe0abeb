-- ===== src/Configuration/Secrets/Present.antt =====
-- When the secrets count as there.
use ces_importer.Base.{
  subst, sym, ap, ◌∙◌, String, ◌==◌, ◌≡◌, ◌↔◌, refl, Bool, true, false, not, ◌||◌, Option, none,
  some, List, [], ◌∷◌, ◌++◌, Error, wrap, ◌<>◌, ok, arith, join, Result-cases, Option-cases,
  Bool-cases, inl, inr, of_eq,
}
use ces_importer.Base.Dict
use ces_importer.Base.Dict.{Dict}
use ces_importer.Configuration.Types.{Api, Ssh, Smtp}
use ces_importer.Configuration.Secrets.{
  missing, SecretGetter, SecretMap, append_key, secret_map_of, check_keys, check_secrets,
  validate_secrets,
}
use ces_importer.Migration.Fqdn.Cluster.{Tries}

-- The secret has this key.
abbrev pub HasKey : Dict String → String → Type 0
HasKey d key = (v : String) × (Dict.lookup key d ≡ some v)

abbrev pub HasKeys : Dict String → List String → Type 0
HasKeys d [] = Unit
HasKeys d (key ∷ keys) = HasKey d key × HasKeys d keys

join-some : (o : Option Error) (e : Error) → ¬ (join o (some e) ≡ none)
unfolding join
join-some none e h = ground arith
join-some (some a) e h = ground arith

check_keys-HasKeys :
    (name : String) (d : Dict String) (keys : List String) (result : Option Error)
    → (check_keys name d keys result ≡ none) ↔ ((result ≡ none) × HasKeys d keys)
unfolding check_keys
check_keys-HasKeys name d [] result = (λ h. (h, tt), λ (h, _). h)
check_keys-HasKeys name d (key ∷ keys) result = elim (Option-cases (Dict.lookup key d)) [
  | inr (v, p) ↦
      let (there, back) = check_keys-HasKeys name d keys result in
      let opened : check_keys name d (key ∷ keys) result ≡ check_keys name d keys result =
        ground (arith, p) in
      (
        λ h. let (r, ks) = there (sym opened ∙ h) in (r, ((v, p), ks)),
        λ (r, (_, ks)). opened ∙ back (r, ks),
      )
  | inl p ↦
      let failed = join result (some (missing name key)) in
      let opened : check_keys name d (key ∷ keys) result ≡ check_keys name d keys failed =
        ground (arith, p) in
      (
        λ h.
            elim (join-some result _
              ((check_keys-HasKeys name d keys failed).0 (sym opened ∙ h)).0) [ ],
        λ (_, ((v, q), _)). ground (arith, p, q),
      )
]

HasKeys-append :
    (d : Dict String) (keys : List String) (key : String)
    → HasKeys d (keys ++ key ∷ []) ↔ (HasKeys d keys × HasKey d key)
HasKeys-append d [] key = (λ (h, _). (tt, h), λ (_, h). (h, tt))
HasKeys-append d (k ∷ keys) key =
    let (there, back) = HasKeys-append d keys key in
    (λ (h, t). let (a, b) = there t in ((h, a), b), λ ((h, a), b). (h, back (a, b)))

append_key-at :
    (j name key : String) (keys : List String) (m : SecretMap)
    → (j == name) ≡ true
    → append_key name key ((j, keys) ∷ m) ≡ (name, keys ++ key ∷ []) ∷ m
unfolding append_key Dict.insert Dict.lookup
append_key-at j name key keys m p = ground (arith, p)

append_key-past :
    (j name key : String) (keys : List String) (m : SecretMap)
    → (j == name) ≡ false
    → append_key name key ((j, keys) ∷ m) ≡ (j, keys) ∷ append_key name key m
unfolding append_key Dict.insert Dict.lookup
append_key-past j name key keys m p = ground (arith, p)

module _ (secret : String → Option (Dict String)) where
  -- The secret is there and has the key.
  abbrev pub Present : String → String → Type 0
  Present name key = (d : Dict String) × (secret name ≡ some d) × HasKey d key

  abbrev Entry : String → List String → Type 0
  Entry name keys = (d : Dict String) × (secret name ≡ some d) × HasKeys d keys

  abbrev Entries : SecretMap → Type 0
  Entries [] = Unit
  Entries ((name, keys) ∷ m) = Entry name keys × Entries m

  same_secret : {n : String} {d d' : Dict String} → secret n ≡ some d → secret n ≡ some d' → d ≡ d'
  same_secret p q = ground (arith, p, q)

  Entry-append :
      (name : String) (keys : List String) (key : String)
      → Entry name (keys ++ key ∷ []) ↔ (Entry name keys × Present name key)
  Entry-append name keys key = (
    λ (d, p, h). let (a, b) = (HasKeys-append d keys key).0 h in ((d, p, a), (d, p, b)),
    λ ((d, p, a), (d', q, b)).
        (d, p, (HasKeys-append d keys key).1 (a, subst (λ x. HasKey x key) (same_secret q p) b)),
  )

  append_key-Entries :
      (name key : String) (m : SecretMap)
      → Entries (append_key name key m) ↔ (Entries m × Present name key)
  unfolding append_key Dict.insert Dict.lookup
  append_key-Entries name key [] =
      (λ ((d, p, (h, _)), _). (tt, (d, p, h)), λ (_, (d, p, h)). ((d, p, (h, tt)), tt))
  append_key-Entries name key ((j, keys) ∷ m) = elim (Bool-cases (j == name)) [
    | inl p ↦
        let (there, back) = Entry-append name keys key in
        let named = of_eq p in
        subst (λ x. Entries x ↔ (Entries ((j, keys) ∷ m) × Present name key))
          (sym (append_key-at j name key keys m p))
          (
            λ (h, t). let (a, b) = there h in ((subst (λ n. Entry n keys) (sym named) a, t), b),
            λ ((a, t), b). (back (subst (λ n. Entry n keys) named a, b), t),
          )
    | inr p ↦
        let (there, back) = append_key-Entries name key m in
        subst (λ x. Entries x ↔ (Entries ((j, keys) ∷ m) × Present name key))
          (sym (append_key-past j name key keys m p))
          (λ (h, t). let (a, b) = there t in ((h, a), b), λ ((h, a), b). (h, back (a, b)))
  ]

  -- The names and keys that the configuration has: those of the mail only if there is a server and a user.
  abbrev pub Wanted : Api → Ssh → Smtp → Type 0
  Wanted api ssh smtp =
      Present api.secret_name api.secret_data_key
      × Present ssh.secret_name ssh.secret_data_key
      × ((smtp.server == "") || (smtp.username == "") ≡ false
          → Present smtp.secret_name smtp.secret_data_key)

  secret_map_of-Entries :
      (api : Api) (ssh : Ssh) (smtp : Smtp)
      → Entries (secret_map_of api ssh smtp) ↔ Wanted api ssh smtp
  unfolding secret_map_of
  secret_map_of-Entries api ssh smtp =
      let api_map = append_key api.secret_name api.secret_data_key [] in
      let both_map = append_key ssh.secret_name ssh.secret_data_key api_map in
      let (there1, back1) = append_key-Entries api.secret_name api.secret_data_key [] in
      let (there2, back2) = append_key-Entries ssh.secret_name ssh.secret_data_key api_map in
      let (there3, back3) = append_key-Entries smtp.secret_name smtp.secret_data_key both_map in
      elim (Bool-cases ((smtp.server == "") || (smtp.username == ""))) [
        | inl p ↦
            let opened : secret_map_of api ssh smtp ≡ both_map = ground (arith, p) in
            subst (λ x. Entries x ↔ Wanted api ssh smtp) (sym opened)
              (
                λ h.
                    let (one, second) = there2 h in
                    ((there1 one).1, second, λ q. ground (arith, p, q)),
                λ (first, second, _). back2 (back1 (tt, first), second),
              )
        | inr p ↦
            let opened : secret_map_of api ssh smtp
                ≡ append_key smtp.secret_name smtp.secret_data_key both_map =
              ground (arith, p) in
            subst (λ x. Entries x ↔ Wanted api ssh smtp) (sym opened)
              (
                λ h.
                    let (two, third) = there3 h in
                    let (one, second) = there2 two in ((there1 one).1, second, λ _. third),
                λ (first, second, third). back3 (back2 (back1 (tt, first), second), third p),
              )
      ]

module _ {W : Type 0} (sg : SecretGetter W) (secret : String → Option (Dict String)) where
  -- Each Get of the check, which begins in this world, gives a secret.
  abbrev pub Answered : SecretMap → W → Type 0
  Answered [] w = Unit
  Answered ((name, keys) ∷ m) w =
      ((d : Dict String) × ((sg.get name w).0 ≡ ok d)) × Answered m (sg.get name w).1

  -- The attempts between the two worlds each failed, with an error that does not say that a secret is not there.
  pub data Retried (f : W → Option Error × W) : W → W → Type 0 where
    at_once : (w : W) → Retried f w w
    again :
        (w last : W) (e : Error)
        → (f w).0 ≡ some e
        → sg.is_not_found e ≡ false
        → Retried f (f w).1 last
        → Retried f w last

  Tries-Retried :
      (f : W → Option Error × W) (w : W) (r : Option Error × W)
      → Tries (λ e. not (sg.is_not_found e)) f w r
      → (last : W) × Retried f w last × (f last ≡ r)
  Tries-Retried f w r (Tries.last p) = (w, at_once w, p)
  Tries-Retried f w r (Tries.again e p q t) =
      let (last, retried, ended) = Tries-Retried f (f w).1 r t in
      (last, again w last e p (ground (arith, q)) retried, ended)

  module _
      (sound : (n : String) (w : W) (d : Dict String)
        → (sg.get n w).0 ≡ ok d
        → secret n ≡ some d) where
    check_secrets-Entries :
        (m : SecretMap) (result : Option Error) (w : W)
        → ((check_secrets sg m result w).0 ≡ none)
          ↔ ((result ≡ none) × Answered m w × Entries secret m)
    unfolding check_secrets
    check_secrets-Entries [] result w = (λ h. (h, tt, tt), λ (h, _, _). h)
    check_secrets-Entries ((name, keys) ∷ m) result w = elim (Result-cases (sg.get name w).0) [
      | inr (e, p) ↦
          let failed = join result (some (wrap ("failed to get secret " <> name) e)) in
          let w1 = (sg.get name w).1 in
          let opened : check_secrets sg ((name, keys) ∷ m) result w ≡ check_secrets sg m failed w1 =
            ground (arith, p) in
          (
            λ h.
                elim (join-some result _
                  ((check_secrets-Entries m failed w1).0 (sym (ap (λ x. x.0) opened) ∙ h)).0) [ ],
            λ (_, ((d, q), _), _). ground (arith, p, q),
          )
      | inl (d, p) ↦
          let stored = sound name w d p in
          let w1 = (sg.get name w).1 in
          let checked = check_keys name d keys result in
          let opened : check_secrets sg ((name, keys) ∷ m) result w
              ≡ check_secrets sg m checked w1 =
            ground (arith, p) in
          let (keys_there, keys_back) = check_keys-HasKeys name d keys result in
          let (there, back) = check_secrets-Entries m checked w1 in
          (
            λ h.
                let (a, answered, b) = there (sym (ap (λ x. x.0) opened) ∙ h) in
                let (r, ks) = keys_there a in (r, ((d, p), answered), ((d, stored, ks), b)),
            λ (r, (_, answered), ((d', q, ks), b)).
                let known = subst (λ x. HasKeys x keys) (same_secret secret q stored) ks in
                ap (λ x. x.0) opened ∙ back (keys_back (r, known), answered, b),
          )
    ]

    -- If the retries give the result of the last attempt, as `Tries` says, and an answer of Get is always the stored secret, then the check gives what its last attempt gives, and each attempt before it failed
    -- with an error other than a secret that is not found. There is no error exactly if in this last attempt each Get answered and the secret of the API and that of the SSH key are there and have their keys,
    -- and, if mail has a server and a user, that of the mail too; two of them can be keys of one secret.
    pub validate_secrets-Wanted :
        ((retriable : Error → Bool) (f : W → Option Error × W) (w : W)
          → Tries retriable f w (sg.on_error retriable f w))
        → (api : Api) (ssh : Ssh) (smtp : Smtp) (w : W)
        → let attempt = check_secrets sg (secret_map_of api ssh smtp) none in
          (last : W) × Retried attempt w last
          × (validate_secrets sg api ssh smtp w ≡ attempt last)
          × (((validate_secrets sg api ssh smtp w).0 ≡ none)
              ↔ (Answered (secret_map_of api ssh smtp) last × Wanted secret api ssh smtp))
    unfolding validate_secrets
    validate_secrets-Wanted tries api ssh smtp w =
        let m = secret_map_of api ssh smtp in
        let (last, retried, ended) =
          Tries-Retried (check_secrets sg m none) w _
            (tries (λ e. not (sg.is_not_found e)) (check_secrets sg m none) w) in
        let (there, back) = check_secrets-Entries m none last in
        let (wanted, entries) = secret_map_of-Entries secret api ssh smtp in
        (
          last,
          retried,
          sym ended,
          (
            λ h. let (_, answered, b) = there (ap (λ x. x.0) ended ∙ h) in (answered, wanted b),
            λ (answered, h). sym (ap (λ x. x.0) ended) ∙ back (refl, answered, entries h),
          ),
        )

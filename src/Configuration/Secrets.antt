-- ===== src/Configuration/Secrets.antt =====
-- configuration/coordinator.go: the check that the secrets of the configuration are there. The API server and client-go's retries are
-- parameters; a secret is its data.
pub mod Present
use ces_importer.Base.{
  String, ◌<>◌, ◌==◌, Bool, true, false, ◌||◌, not, Option, none, some, List, [], ◌∷◌, ◌++◌, Error,
  plain, wrap, join, Result, ok, err, if◌then◌else◌,
}
use ces_importer.Base.Dict
use ces_importer.Base.Dict.{Dict}
use ces_importer.Configuration.Types.{Api, Ssh, Smtp}

-- `retry.OnError` with the default backoff, `apierrors.IsNotFound` and `secretGetter`.
pub record SecretGetter (W : Type 0) : Type 0 where
  pub on_error : (Error → Bool) → (W → Option Error × W) → W → Option Error × W
  pub is_not_found : Error → Bool
  pub get : String → W → Result (Dict String) × W

abbrev SecretMap : Type 0
SecretMap = Dict (List String)

abbrev or_nil : Option (List String) → List String
or_nil none = []
or_nil (some keys) = keys

-- `secretMap[name] = append(secretMap[name], key)`
unfoldable pub append_key : String → String → SecretMap → SecretMap
append_key name key secret_map =
    Dict.insert name (or_nil (Dict.lookup name secret_map) ++ key ∷ []) secret_map

unfoldable pub secret_map_of : Api → Ssh → Smtp → SecretMap
secret_map_of api ssh smtp =
    let both =
      append_key ssh.secret_name ssh.secret_data_key
        (append_key api.secret_name api.secret_data_key []) in
    if (smtp.server == "") || (smtp.username == "")
    then both
    else append_key smtp.secret_name smtp.secret_data_key both

abbrev pub missing : String → String → Error
missing name key = plain ("secret " <> name <> " does not contain key " <> key)

-- The inner loop.
unfoldable pub check_keys : String → Dict String → List String → Option Error → Option Error
check_keys name d [] result = result
check_keys name d (key ∷ keys) result = elim (Dict.lookup key d) [
  | some _ ↦ check_keys name d keys result
  | none ↦ check_keys name d keys (join result (some (missing name key)))
]

module _ {W : Type 0} (sg : SecretGetter W) where
  unfoldable pub check_secrets : SecretMap → Option Error → W → Option Error × W
  check_secrets [] result w = (result, w)
  check_secrets ((name, keys) ∷ entries) result w =
      let (got, w1) = sg.get name w in
      elim got [
        | err e ↦
            check_secrets entries (join result (some (wrap ("failed to get secret " <> name) e))) w1
        | ok secret ↦ check_secrets entries (check_keys name secret keys result) w1
      ]

  unfoldable pub validate_secrets : Api → Ssh → Smtp → W → Option Error × W
  validate_secrets api ssh smtp =
      sg.on_error (λ e. not (sg.is_not_found e)) (check_secrets (secret_map_of api ssh smtp) none)

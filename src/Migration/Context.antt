-- ===== src/Migration/Context.antt =====
-- migration/context.go. Of a `context.Context` the model keeps the values at the package's two keys.
use ces_importer.Base.{String, ◌==◌, Bool, true, false, Option, none, some, if◌then◌else◌}

pub record Context : Type 0 where
  pub final_migration : Option Bool
  pub trigger_fqdn_change : Option Bool

-- `context.Background()`
abbrev pub background : Context
background = record { final_migration = none; trigger_fqdn_change = none }

-- A value that is not set reads as false.
abbrev pub is_set : Option Bool → Bool
is_set none = false
is_set (some b) = b

unfoldable pub set_final_migration : Context → Context
set_final_migration ctx = record ctx { final_migration = some true }

unfoldable pub is_final_migration : Context → Bool
is_final_migration ctx = is_set ctx.final_migration

unfoldable pub set_trigger_fqdn_change : Context → Context
set_trigger_fqdn_change ctx = record ctx { trigger_fqdn_change = some true }

unfoldable pub trigger_fqdn_change : Context → Bool
trigger_fqdn_change ctx = is_set ctx.trigger_fqdn_change

abbrev pub env_trigger_fqdn_change : String
env_trigger_fqdn_change = "TRIGGER_FQDN_CHANGE"

-- `getenv` is `os.Getenv`, which yields the empty text for a variable that is not set.
unfoldable pub set_trigger_fqdn_change_from_env : (String → String) → Context → Context
set_trigger_fqdn_change_from_env getenv ctx =
    if getenv env_trigger_fqdn_change == "true" then set_trigger_fqdn_change ctx else ctx

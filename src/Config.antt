-- ===== src/Config.antt =====
-- internal/config/config.go: the settings of the two operators from the environment. `os.Getenv` is a
-- parameter, a function of the variable's name. Go's int and time.Duration have 64 bits.
pub mod Limits
use accord.Base.{
  ℕ, zero, suc, ◌+◌, ◌*◌, ◌-◌, ◌%◌, ◌^◌, leb, ltb, [], ◌∷◌, ◌&&◌, Bool, true, false, Bytes, codes,
  ◌==◌, Option, none, some, if◌then◌else◌, Outcome, ok, err,
}
use accord.Strings.{trim_space}
use accord.Decimal.{digits_value}

pub data ℤ : Type 0 where
  pos negsuc : ℕ → ℤ

-- The int64 of a number: wrapped around at 2 ^ 64, the upper half below 0.
abbrev pub signed : ℕ → ℤ
signed m = if ltb m (2 ^ 63) then pos m else negsuc (2 ^ 64 - 1 - m)

unfoldable pub wrap_int64 : ℕ → ℤ
wrap_int64 n = signed (n % 2 ^ 64)

abbrev negate : ℕ → ℤ
negate zero = pos 0
negate (suc n) = negsuc n

abbrev pub checked_pos : Option ℕ → Option ℤ
checked_pos none = none
checked_pos (some n) = if ltb n (2 ^ 63) then some (pos n) else none

abbrev checked_neg : Option ℕ → Option ℤ
checked_neg none = none
checked_neg (some n) = if leb n (2 ^ 63) then some (negate n) else none

abbrev digits : Bytes → Option ℕ
digits [] = none
digits (c ∷ s) = digits_value 0 (c ∷ s)

-- `strconv.Atoi`: an optional sign and one or more decimal digits, in the range of int64.
unfoldable pub atoi : Bytes → Option ℤ
atoi [] = none
atoi (c ∷ s) =
    if leb c 43 && leb 43 c
    then checked_pos (digits s)
    else if leb c 45 && leb 45 c
    then checked_neg (digits s)
    else checked_pos (digits (c ∷ s))

pub data ConfigError : Type 0 where
  parse_batch_interval_failed batch_interval_too_small webhook_secret_not_set : ConfigError

pub record InventoryControllerConfig : Type 0 where
  pub git_repo_url : Bytes
  pub git_branch : Bytes
  pub batch_interval : ℤ
  pub export_path_template : Bytes
  pub git_username : Bytes
  pub git_access_token : Bytes

pub record SyncOperatorConfig : Type 0 where
  pub webhook_secret : Bytes
  pub git_access_token : Bytes

abbrev pub second : ℕ
second = 1000000000

abbrev pub default_batch_interval_sec : ℕ
default_batch_interval_sec = 10

abbrev pub default_git_branch : Bytes
default_git_branch = codes "main"

abbrev pub default_export_path_template : Bytes
default_export_path_template = codes "inventory/{{.PluralKind}}/{{.Namespace}}/{{.Name}}.yaml"

abbrev pub or_default : Bytes → Bytes → Bytes
or_default value default = if value == [] then default else value

abbrev pub env_batch_interval_seconds : Bytes
env_batch_interval_seconds = codes "BATCH_INTERVAL_SECONDS"

abbrev pub env_webhook_secret : Bytes
env_webhook_secret = codes "WEBHOOK_SECRET"

-- `if sec < 1`, and the interval as a product of two int64 numbers.
abbrev pub interval_of : Option ℤ → Outcome ConfigError ℤ
interval_of none = err parse_batch_interval_failed
interval_of (some (negsuc n)) = err batch_interval_too_small
interval_of (some (pos sec)) =
    if ltb sec 1 then err batch_interval_too_small else ok (wrap_int64 (sec * second))

unfoldable pub load_batch_interval : Bytes → Outcome ConfigError ℤ
load_batch_interval v =
    if v == [] then ok (wrap_int64 (default_batch_interval_sec * second)) else interval_of (atoi v)

-- The settings, but for the interval, are the variables or their defaults.
abbrev pub with_interval : (Bytes → Bytes) → ℤ → InventoryControllerConfig
with_interval env interval = record {
  git_repo_url = env (codes "GIT_REPO_URL");
  git_branch = or_default (env (codes "GIT_BRANCH")) default_git_branch;
  batch_interval = interval;
  export_path_template =
      or_default (env (codes "EXPORT_PATH_TEMPLATE")) default_export_path_template;
  git_username = env (codes "GIT_USERNAME");
  git_access_token = env (codes "GIT_ACCESS_TOKEN");
}

unfoldable pub load_inventory_controller_config :
    (Bytes → Bytes) → Outcome ConfigError InventoryControllerConfig
load_inventory_controller_config env = elim (load_batch_interval (env env_batch_interval_seconds)) [
  | err e ↦ err e
  | ok interval ↦ ok (with_interval env interval)
]

unfoldable pub load_sync_operator_config : (Bytes → Bytes) → Outcome ConfigError SyncOperatorConfig
load_sync_operator_config env =
    if trim_space (env env_webhook_secret) == []
    then err webhook_secret_not_set
    else ok (record {
      webhook_secret = env env_webhook_secret;
      git_access_token = env (codes "GIT_ACCESS_TOKEN");
    })

-- ===== src/Config/Limits.antt =====
-- The batch interval in its 64 bits, and the settings that start an operator.
use accord.Base.{
  ℕ, ◌*◌, ◌-◌, ◌%◌, ◌^◌, ◌≤◌, ◌<◌, [], ◌∷◌, ◌⊎◌, none, Bytes, codes, ◌==◌, Bool-cases, inl, inr,
  Option, some, ok, err, ◌≡◌, ◌≢◌, refl, ap, ◌∙◌, arith, false, leb,
}
use accord.Decimal.{decimal, digits_value}
use accord.Decimal.RoundTrip.{value-decimal, decimal_ne_nil}
use accord.Strings.{trim_space, trim_prefix, strings}
use accord.Sync.Hmac.{signature_prefix, compare_mac, secret_not_configured, verify_hmac_signature}
use accord.Hex.{decode_hex}
use accord.Config.{
  ℤ, pos, negsuc, checked_pos, wrap_int64, atoi, second, SyncOperatorConfig, webhook_secret_not_set,
  env_batch_interval_seconds, env_webhook_secret, load_batch_interval, with_interval,
  load_inventory_controller_config, load_sync_operator_config,
}

first_digit : (c n : ℕ) (s : Bytes) → digits_value 0 (c ∷ s) ≡ some n → 48 ≤ c
unfolding digits_value
first_digit c n s v = ground arith

read_digits : (c : ℕ) (s : Bytes) → 48 ≤ c → atoi (c ∷ s) ≡ checked_pos (digits_value 0 (c ∷ s))
unfolding atoi
read_digits c s h = ground arith

in_range : (n : ℕ) → n < 2 ^ 63 → checked_pos (some n) ≡ some (pos n)
in_range n h = ground arith

atoi_of_digits :
    (s : Bytes) (n : ℕ) → s ≢ [] → digits_value 0 s ≡ some n → n < 2 ^ 63 → atoi s ≡ some (pos n)
atoi_of_digits [] n e v h = absurd (e refl)
atoi_of_digits (c ∷ s) n e v h =
    read_digits c s (first_digit c n s v) ∙ ap checked_pos v ∙ in_range n h

-- Every number below 2 ^ 63 is read as what it was printed from.
pub atoi-decimal : (n : ℕ) → n < 2 ^ 63 → atoi (decimal n) ≡ some (pos n)
atoi-decimal n h = atoi_of_digits (decimal n) n (decimal_ne_nil n) (value-decimal n) h

mod_small : (n : ℕ) → n ≤ 18446744073709551615 → n % 2 ^ 64 ≡ n
mod_small n h = omega arith

wrap_fits : (n : ℕ) → n ≤ 9223372036000000000 → wrap_int64 n ≡ pos n
unfolding wrap_int64
wrap_fits n h = rw (mod_small n (omega arith)) (ground arith)

wrap_overflow :
    (n : ℕ)
    → 9223372037000000000 ≤ n
    → n ≤ 18446744073000000000
    → wrap_int64 n ≡ negsuc (18446744073709551615 - n)
unfolding wrap_int64
wrap_overflow n h k = rw (mod_small n (omega arith)) (ground arith)

load_sec :
    (v : Bytes) (sec : ℕ)
    → atoi v ≡ some (pos sec)
    → 1 ≤ sec
    → load_batch_interval v ≡ ok (wrap_int64 (sec * second))
unfolding load_batch_interval atoi ◌==◌
load_sec [] sec e h = ground arith
load_sec (c ∷ s) sec e h = rw e (ground arith)

load_with :
    (env : Bytes → Bytes) (interval : ℤ)
    → load_batch_interval (env env_batch_interval_seconds) ≡ ok interval
    → load_inventory_controller_config env ≡ ok (with_interval env interval)
unfolding load_inventory_controller_config
load_with env interval h = rw (load_inventory_controller_config, h) refl

load_interval_fits :
    (env : Bytes → Bytes) (sec : ℕ)
    → atoi (env env_batch_interval_seconds) ≡ some (pos sec)
    → 1 ≤ sec
    → sec ≤ 9223372036
    → load_inventory_controller_config env ≡ ok (with_interval env (pos (sec * second)))
load_interval_fits env sec e l h = load_with env _ (
    load_sec (env env_batch_interval_seconds) sec e l
    ∙ ap ok (wrap_fits (sec * second) (omega arith)))

load_interval_overflow :
    (env : Bytes → Bytes) (sec : ℕ)
    → atoi (env env_batch_interval_seconds) ≡ some (pos sec)
    → 9223372037 ≤ sec
    → sec ≤ 18446744073
    → load_inventory_controller_config env
      ≡ ok (with_interval env (negsuc (18446744073709551615 - sec * second)))
load_interval_overflow env sec e l h = load_with env _ (
    load_sec (env env_batch_interval_seconds) sec e (omega arith)
    ∙ ap ok (wrap_overflow (sec * second) (omega arith) (omega arith)))

-- A batch interval from one second to 18446744073 seconds is loaded, and the other settings are the
-- variables or their defaults. Up to 9223372036 seconds it is that many nanoseconds: the product does
-- not overflow. From 9223372037 on it does, and the operator starts with a negative interval, which is
-- not a valid period of a ticker.
pub load_interval :
    (env : Bytes → Bytes) (sec : ℕ)
    → atoi (env env_batch_interval_seconds) ≡ some (pos sec)
    → 1 ≤ sec
    → sec ≤ 18446744073
    → ((sec ≤ 9223372036)
        × (load_inventory_controller_config env ≡ ok (with_interval env (pos (sec * second)))))
      ⊎ ((9223372036 < sec)
          × (load_inventory_controller_config env
              ≡ ok (with_interval env (negsuc (18446744073709551615 - sec * second)))))
load_interval env sec e l h = elim (Bool-cases (leb sec 9223372036)) [
  | inl small ↦
      let fits : sec ≤ 9223372036 = ground arith in inl (fits, load_interval_fits env sec e l fits)
  | inr large ↦
      let above : 9223372036 < sec = ground arith in
      inr (above, load_interval_overflow env sec e (omega arith) h)
]

compare_mac-configured :
    (received : Option Bytes) (tag : Bytes) → compare_mac received tag ≢ err secret_not_configured
unfolding compare_mac
compare_mac-configured none tag h = cc
compare_mac-configured (some r) tag h = ground arith

verify-configured :
    (hmac_sha256 : Bytes → Bytes → Bytes) (secret header body : Bytes)
    → (secret == []) ≡ false
    → verify_hmac_signature hmac_sha256 secret header body ≢ err secret_not_configured
unfolding verify_hmac_signature
verify-configured hmac_sha256 secret header body s h = ground (
  arith,
  compare_mac-configured (decode_hex (trim_prefix header signature_prefix))
      (hmac_sha256 secret body),
)

trim_nil : trim_space [] ≡ []
unfolding strings
trim_nil = refl

given_secret : (v : Bytes) → (trim_space v == []) ≡ false → (v == []) ≡ false
unfolding ◌==◌
given_secret [] h = rw trim_nil at h
given_secret (c ∷ s) h = refl

secrets : (Bytes → Bytes) → SyncOperatorConfig
secrets env = record {
  webhook_secret = env env_webhook_secret;
  git_access_token = env (codes "GIT_ACCESS_TOKEN");
}

-- The sync-operator does not start without a secret: whatever the environment, either loading is
-- refused, or the webhook's check never finds the secret missing, for every signature and body.
pub load-verify :
    (env : Bytes → Bytes) (hmac_sha256 : Bytes → Bytes → Bytes) (header body : Bytes)
    → (load_sync_operator_config env ≡ err webhook_secret_not_set)
      ⊎ ((c : SyncOperatorConfig) × (load_sync_operator_config env ≡ ok c)
          × (verify_hmac_signature hmac_sha256 c.webhook_secret header body
              ≢ err secret_not_configured))
unfolding load_sync_operator_config secrets
load-verify env hmac_sha256 header body =
    elim (Bool-cases (trim_space (env env_webhook_secret) == [])) [
      | inl blank ↦ inl (rw blank refl)
      | inr given ↦ inr (
        secrets env,
        rw given refl,
        verify-configured hmac_sha256 (env env_webhook_secret) header body (given_secret _ given),
      )
    ]

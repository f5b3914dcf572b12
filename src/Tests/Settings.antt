-- ===== src/Tests/Settings.antt =====
-- Environments of the two operators, and signatures.
use accord.Base.{
  ◌⊎◌, ◌≤◌, ◌<◌, ◌-◌, ◌*◌, [], ◌∷◌, some, Bytes, codes, ok, ◌≡◌, ◌≢◌, ◌↔◌, refl, arith,
}
use accord.Decimal.{digits_value}
use accord.Config.{
  pos, negsuc, atoi, second, with_interval, env_batch_interval_seconds,
  load_inventory_controller_config,
}
use accord.Config.Limits.{load_interval}
use accord.Sync.Hmac.{verify_hmac_signature}
use accord.Sync.Hmac.Laws.{IsSignature, verify_iff}

-- Every variable is set to the text.
abbrev all_set : Bytes → Bytes → Bytes
all_set value variable = value

abbrev first_byte : Bytes → Bytes → Bytes
first_byte key message = 0 ∷ 255 ∷ []

abbrev secret : Bytes
secret = codes "s3cret"

too_long : atoi (all_set (codes "9223372037") env_batch_interval_seconds) ≡ some (pos 9223372037)
unfolding atoi digits_value
too_long = refl

load_interval_example :
    ((9223372037 ≤ 9223372036)
      × (load_inventory_controller_config (all_set (codes "9223372037"))
          ≡ ok (with_interval (all_set (codes "9223372037")) (pos (9223372037 * second)))))
    ⊎ ((9223372036 < 9223372037)
        × (load_inventory_controller_config (all_set (codes "9223372037"))
            ≡ ok (
                with_interval
                  (all_set (codes "9223372037"))
                  (negsuc (18446744073709551615 - 9223372037 * second)))))
load_interval_example =
    load_interval (all_set (codes "9223372037")) 9223372037 too_long (omega arith) (omega arith)

verify_iff_example :
    (verify_hmac_signature first_byte secret (codes "sha256=00ff") (codes "{}") ≡ ok tt)
    ↔ ((secret ≢ []) × IsSignature (codes "sha256=00ff") (first_byte secret (codes "{}")))
verify_iff_example = verify_iff first_byte secret (codes "sha256=00ff") (codes "{}")

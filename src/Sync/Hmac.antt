-- ===== src/Sync/Hmac.antt =====
-- internal/sync/hmac.go: the signature of a push body. HMAC-SHA256 is a parameter, a function of
-- the key and the message; `hmac.Equal` compares for equality.
pub mod Laws
use accord.Base.{
  ◌||◌, [], ◌∷◌, not, Option, none, some, Bytes, codes, ◌==◌, if◌then◌else◌, Outcome, ok, err,
}
use accord.Strings.{has_prefix, trim_prefix}
use accord.Hex.{decode_hex}

abbrev pub signature_header : Bytes
signature_header = codes "X-Hub-Signature-256"

abbrev pub signature_prefix : Bytes
signature_prefix = codes "sha256="

pub data HmacError : Type 0 where
  secret_not_configured missing_header invalid_format decode_failed mismatch : HmacError

unfoldable pub compare_mac : Option Bytes → Bytes → Outcome HmacError (Unit {0})
compare_mac none expected = err decode_failed
compare_mac (some received) expected = if received == expected then ok tt else err mismatch

unfoldable pub verify_hmac_signature :
    (Bytes → Bytes → Bytes) → Bytes → Bytes → Bytes → Outcome HmacError (Unit {0})
verify_hmac_signature hmac_sha256 secret header body =
    if secret == []
    then err secret_not_configured
    else if header == []
    then err missing_header
    else if not (has_prefix header signature_prefix)
    then err invalid_format
    else compare_mac (decode_hex (trim_prefix header signature_prefix)) (hmac_sha256 secret body)

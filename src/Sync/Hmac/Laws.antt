-- ===== src/Sync/Hmac/Laws.antt =====
-- Exactly the right signatures are accepted.
use accord.Base.{
  [], ◌++◌, Option, none, some, Bytes, eq_iff, eq_refl, ok, ◌≡◌, ◌≢◌, ◌↔◌, refl, arith, inl, inr,
}
use accord.Strings.Affixes.{prefix_cases, has_prefix-append, trim_prefix-append}
use accord.Hex.{encode_hex, decode_hex}
use accord.Hex.RoundTrip.{AreBytes, decode_hex-encode_hex}
use accord.Sync.Hmac.{signature_prefix, compare_mac, verify_hmac_signature}

-- The header carries the tag in hexadecimal digits, of either case, behind "sha256=".
abbrev pub IsSignature : Bytes → Bytes → Type 0
IsSignature header tag =
    (digits : Bytes) × (header ≡ signature_prefix ++ digits) × (decode_hex digits ≡ some tag)

compare_mac_sound :
    (received : Option Bytes) (tag : Bytes) → compare_mac received tag ≡ ok tt → received ≡ some tag
unfolding compare_mac
compare_mac_sound none tag h = cc
compare_mac_sound (some r) tag h = ground (arith, eq_iff r tag)

compare_mac_complete : (tag : Bytes) → compare_mac (some tag) tag ≡ ok tt
unfolding compare_mac
compare_mac_complete tag = rw (eq_refl tag)

module _ (hmac_sha256 : Bytes → Bytes → Bytes) (secret header body : Bytes) where
  verify_sound :
      verify_hmac_signature hmac_sha256 secret header body ≡ ok tt
      → (secret ≢ []) × IsSignature header (hmac_sha256 secret body)
  unfolding verify_hmac_signature
  verify_sound h = elim (prefix_cases header signature_prefix) [
    | inl (missing, _) ↦ ground (arith, eq_iff secret [], eq_iff header [])
    | inr (digits, e, found, cut) ↦ (
      ground (arith, eq_iff secret []),
      (
        digits,
        e,
        compare_mac_sound (decode_hex digits) (hmac_sha256 secret body)
            (ground (arith, eq_iff secret [], eq_iff header [])),
      ),
    )
  ]

  verify_complete :
      secret ≢ []
      → IsSignature header (hmac_sha256 secret body)
      → verify_hmac_signature hmac_sha256 secret header body ≡ ok tt
  unfolding verify_hmac_signature
  verify_complete s (digits, e, d) =
      rw
        (
          e,
          has_prefix-append signature_prefix digits,
          trim_prefix-append signature_prefix digits,
          d,
        )
        (ground (
          arith,
          eq_iff secret [],
          eq_iff (signature_prefix ++ digits) [],
          compare_mac_complete (hmac_sha256 secret body),
        ))

  -- A body is accepted exactly when a secret is configured and the header carries the HMAC of the
  -- body under that secret.
  pub verify_iff :
      (verify_hmac_signature hmac_sha256 secret header body ≡ ok tt)
      ↔ ((secret ≢ []) × IsSignature header (hmac_sha256 secret body))
  verify_iff = (verify_sound, λ (s, h). verify_complete s h)

-- What a sender that knows the secret writes into the header is accepted.
pub verify-encode_hex :
    (hmac_sha256 : Bytes → Bytes → Bytes) (secret body : Bytes)
    → AreBytes (hmac_sha256 secret body)
    → secret ≢ []
    → verify_hmac_signature hmac_sha256 secret
        (signature_prefix ++ encode_hex (hmac_sha256 secret body))
        body
      ≡ ok tt
verify-encode_hex hmac_sha256 secret body b s =
    verify_complete hmac_sha256 secret _ body s (
      encode_hex (hmac_sha256 secret body),
      refl,
      decode_hex-encode_hex (hmac_sha256 secret body) b,
    )

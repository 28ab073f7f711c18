-- ===== src/Cbor/Auth.antt =====
-- src/cbor.c: the arguments of a request that prove knowledge of a token or a PIN.
use fido2_manage.Prelude.{
  ℕ, ◌&&◌, List, ◌++◌, Option, none, some, length, take, ltb, ◌==◌, if◌then◌else◌,
}
use fido2_manage.Device.{Dev}
use fido2_manage.Flags.{fido_dev_get_pin_protocol}
use fido2_manage.Cbor.{Value, uint, bytestring}

-- OpenSSL's HMAC with SHA-256, of a key and a text; `none` if it fails.
abbrev pub Hmac : Type 0
Hmac = List ℕ → List ℕ → Option (List ℕ)

abbrev pub pin_protocol : Dev → Option ℕ
pin_protocol d = let p = fido_dev_get_pin_protocol d in if p == 0 then none else some p

unfoldable pub cbor_encode_pin_auth : Hmac → Dev → List ℕ → List ℕ → Option Value
cbor_encode_pin_auth hmac_sha256 d secret bs = elim (pin_protocol d) [
  | none ↦ none
  | some prot ↦
      let key = if prot == 2 && ltb 32 (length secret) then take 32 secret else secret in
      elim (hmac_sha256 key bs) [
        | none ↦ none
        | some dgst ↦ some (bytestring (if prot == 1 then take 16 dgst else dgst))
      ]
]

abbrev pub cbor_encode_pin_opt : Dev → Option Value
cbor_encode_pin_opt d = elim (pin_protocol d) [ none ↦ none | some p ↦ some (uint 1 p) ]

-- The text is in two parts here.
unfoldable pub cbor_encode_change_pin_auth : Hmac → Dev → List ℕ → List ℕ → List ℕ → Option Value
unfolding cbor_encode_pin_auth
cbor_encode_change_pin_auth hmac_sha256 d secret new_pin_enc pin_hash_enc =
    cbor_encode_pin_auth hmac_sha256 d secret (new_pin_enc ++ pin_hash_enc)

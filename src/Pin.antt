-- ===== src/Pin.antt =====
-- src/pin.c: the PIN of a device, and the tokens that prove that the user knows it or was verified.
pub mod Secret
pub mod Total
pub mod Change
pub mod Changed
mod Tests
use fido2_manage.Prelude.{
  ℕ, ◌+◌, ◌-◌, ◌*◌, ◌/◌, ◌^◌, Bool, true, false, not, ◌&&◌, ◌||◌, List, [], ◌∷◌, ◌++◌, Option, none,
  some, length, take, replicate, ltb, ◌==◌, bit_and, bit_or, ℤ, eqb_ℤ, if◌then◌else◌,
}
use fido2_manage.Err.{
  fido_ok, err_tx, err_rx, err_internal, err_invalid_argument, err_pin_required,
  err_pin_policy_violation,
}
use fido2_manage.Try.{Ret, val, err, Try, ◌>>=◌, ◌>>◌, give, throw, try, try_option}
use fido2_manage.Device.{Dev}
use fido2_manage.Blob.{Blob, blob_bytes}
use fido2_manage.Flags.{
  fido_dev_supports_permissions, fido_dev_has_uv, has, dev_pin_set, dev_pin_unset,
}
use fido2_manage.Io.{fido_rx_cbor_status}
use fido2_manage.Cbor.{Value, uint, bytestring, string, Parser, cbor_bytestring_copy}
use fido2_manage.Cbor.Auth.{cbor_encode_pin_auth, cbor_encode_pin_opt, cbor_encode_change_pin_auth}
use fido2_manage.Cbor.Encode.{Chars, Es256Pk, es256_pk_encode}
use fido2_manage.Cbor.Decode.{by_number, cbor_decode_uint64}
use fido2_manage.Cbor.Keys.{int_max}
use fido2_manage.Ctap.{
  Calls, send_frame, receive_parsed, give_ret, aes256_cbc_enc, aes256_cbc_dec, fido_do_ecdh,
  cbor_client_pin,
}

-- `ph->len` is 32 if the hash succeeds.
unfoldable pub pin_sha256_enc : Calls → Dev → List ℕ → List ℕ → Try (List ℕ)
pin_sha256_enc c d shared pin = do
  ph ← try_option err_internal (c.sha256 pin)
  aes256_cbc_enc c d shared (take 16 ph)

-- A PIN is a C string here, without its terminator; `& ~63U` leaves a multiple of 64.
unfoldable pub pad64 : List ℕ → Ret (List ℕ)
pad64 pin =
    if ltb (length pin) 4 || ltb 63 (length pin)
    then err err_pin_policy_violation
    else val (pin ++ replicate ((length pin + 63) / 64 * 64 - length pin) 0)

unfoldable pub pin_pad64_enc : Calls → Dev → List ℕ → List ℕ → Try (List ℕ)
pin_pad64_enc c d shared pin = do ppin ← give_ret (pad64 pin); aes256_cbc_enc c d shared ppin

-- The permission that a token needs for a command.
unfoldable pub encode_uv_permission : ℕ → Option ℕ
encode_uv_permission cmd =
    if cmd == 0x02
    then some 0x02
    else if cmd == 0x40 || cmd == 0x09
    then some 0x08
    else if cmd == 0x0d
    then some 0x20
    else if cmd == 0x01
    then some 0x01
    else if cmd == 0x41 || cmd == 0x0a
    then some 0x04
    else if cmd == 0x0c
    then some 0x10
    else none

abbrev pub byte : ℕ → Option Value
byte n = some (uint 1 n)

abbrev pub bytes : List ℕ → Option Value
bytes bs = some (bytestring bs)

-- `fido_blob_set` refuses an empty PIN.
abbrev pub non_empty : List ℕ → Option (List ℕ)
non_empty bs = if length bs == 0 then none else some bs

abbrev pub ctap20_args : Value → Es256Pk → List ℕ → List (Option Value)
ctap20_args opt pk phe =
    some opt ∷ byte 5 ∷ some (es256_pk_encode pk true) ∷ none ∷ none ∷ bytes phe ∷ []

unfoldable pub ctap20_uv_token_tx : Calls → Dev → Chars → List ℕ → Es256Pk → Try (Unit {0})
ctap20_uv_token_tx c d pin ecdh pk = do
  chars ← try_option err_pin_required pin
  p ← try_option err_invalid_argument (non_empty chars)
  phe ← pin_sha256_enc c d ecdh p
  opt ← try_option err_internal (cbor_encode_pin_opt d)
  send_frame c d cbor_client_pin (ctap20_args opt pk phe)

-- The encrypted hash, if there is a PIN; a device without a PIN must verify the user.
unfoldable pub hash_or_uv : Calls → Dev → Chars → List ℕ → Try (Option (List ℕ))
hash_or_uv c d none ecdh = if fido_dev_has_uv d then give none else throw err_pin_required
hash_or_uv c d (some pin) ecdh = do
  p ← try_option err_invalid_argument (non_empty pin)
  phe ← pin_sha256_enc c d ecdh p
  give (some phe)

abbrev pub subcommand : Option (List ℕ) → ℕ
subcommand none = 6
subcommand (some phe) = 9

abbrev pub encoded : Option (List ℕ) → Option Value
encoded none = none
encoded (some bs) = some (bytestring bs)

abbrev pub encoded_chars : Chars → Option Value
encoded_chars none = none
encoded_chars (some chars) = some (string chars)

abbrev pub ctap21_args : Value → Es256Pk → Option (List ℕ) → ℕ → Chars → List (Option Value)
ctap21_args opt pk phe perm rpid =
    some opt
    ∷ byte (subcommand phe)
    ∷ some (es256_pk_encode pk true)
    ∷ none
    ∷ none
    ∷ encoded phe
    ∷ none
    ∷ none
    ∷ byte perm
    ∷ encoded_chars rpid
    ∷ []

unfoldable pub ctap21_uv_token_tx :
    Calls → Dev → Chars → List ℕ → Es256Pk → ℕ → Chars → Try (Unit {0})
ctap21_uv_token_tx c d pin ecdh pk cmd rpid = do
  phe ← hash_or_uv c d pin ecdh
  opt ← try_option err_internal (cbor_encode_pin_opt d)
  perm ← try_option err_internal (encode_uv_permission cmd)
  send_frame c d cbor_client_pin (ctap21_args opt pk phe perm rpid)

unfoldable pub parse_uv_token : Parser Blob
parse_uv_token = by_number λ n v token. if n == 2 then cbor_bytestring_copy v token else some token

unfoldable pub uv_token_rx : Calls → Dev → List ℕ → Try (List ℕ)
uv_token_rx c d ecdh = do
  aes_token ← receive_parsed c d parse_uv_token none
  try_option err_rx (aes256_cbc_dec c d ecdh (blob_bytes aes_token))

unfoldable pub fido_dev_get_uv_token :
    Calls → Dev → ℕ → Chars → List ℕ → Es256Pk → Chars → Try (List ℕ)
fido_dev_get_uv_token c d cmd pin ecdh pk rpid = do
  (if fido_dev_supports_permissions d
      then ctap21_uv_token_tx c d pin ecdh pk cmd rpid
      else ctap20_uv_token_tx c d pin ecdh pk)
  uv_token_rx c d ecdh

-- The two arguments that authenticate a request, `auth` and `opt`.
unfoldable pub cbor_add_uv_params :
    Calls → Dev → ℕ → List ℕ → Es256Pk → List ℕ → Chars → Chars → Try (Value × Value)
cbor_add_uv_params c d cmd hmac_data pk ecdh pin rpid = do
  token ← fido_dev_get_uv_token c d cmd pin ecdh pk rpid
  auth ← try_option err_internal (cbor_encode_pin_auth c.hmac_sha256 d token hmac_data)
  opt ← try_option err_internal (cbor_encode_pin_opt d)
  give (auth, opt)

-- ===== src/Ctap.antt =====
-- src/pin.c, src/credman.c and others: the shape of a command of CTAP2, which is a frame that is sent
-- and a message that is parsed; with src/ecdh.c and the CBC half of src/aes256.c, the secret that the
-- PIN protocols share with a device.
pub mod Total
pub mod Samples
use Prim.Native.String.{String}
use fido2_manage.Prelude.{
  ℕ, ◌-◌, ◌^◌, ◌%◌, Bool, true, false, ◌||◌, not, List, [], ◌∷◌, ◌++◌, Option, none, some, length,
  take, drop, replicate, codes, ltb, ◌==◌, ℤ, eqb_ℤ, if◌then◌else◌,
}
use fido2_manage.Platform.{M, attempt}
use fido2_manage.Err.{fido_ok, err_tx, err_rx, err_internal}
use fido2_manage.Try.{Ret, val, err, Try, ◌>>=◌, ◌>>◌, give, throw, try, try_option}
use fido2_manage.Device.{Dev, Driver}
use fido2_manage.Flags.{fido_dev_get_pin_protocol}
use fido2_manage.Io.{fido_tx, fido_rx, fido_rx_cbor_status}
use fido2_manage.Cbor.{Value, uint, Libcbor, Parser, cbor_parse_reply, cbor_build_frame}
use fido2_manage.Cbor.Auth.{Hmac, cbor_encode_pin_opt}
use fido2_manage.Cbor.Encode.{Es256Pk}
use fido2_manage.Cbor.Decode.{by_number}
use fido2_manage.Cbor.Keys.{es256_pk_decode, blank_point}

-- What the commands call: the driver, libcbor, the system's random bytes, and OpenSSL (`none` if it
-- fails). `hkdf_sha256` takes the info and the secret; `aes256_cbc` whether to encrypt, the key, the
-- initialization vector and the text. `new_key` is a fresh key pair, `derive` the agreed secret.
pub record Calls : Type 0 where
  pub driver : Driver
  pub cbor : Libcbor
  pub get_random : ℕ → M (List ℕ)
  pub sha256 : List ℕ → Option (List ℕ)
  pub hmac_sha256 : Hmac
  pub hkdf_sha256 : List ℕ → List ℕ → Option (List ℕ)
  pub aes256_cbc : Bool → List ℕ → List ℕ → List ℕ → Option (List ℕ)
  pub new_key : M (List ℕ × Es256Pk)
  pub derive : List ℕ → Es256Pk → Option (List ℕ)

abbrev pub cmd_cbor : ℕ
cmd_cbor = 0x10

abbrev pub fido_maxmsg : ℕ
fido_maxmsg = 2048

-- `cbor_build_frame(cmd, argv, …) < 0 || fido_tx(dev, CTAP_CMD_CBOR, …) < 0`
unfoldable pub send_frame : Calls → Dev → ℕ → List (Option Value) → Try (Unit {0})
send_frame c d cmd argv = do
  f ← try_option err_tx (cbor_build_frame c.cbor cmd argv)
  try err_tx (fido_tx c.driver d cmd_cbor f)

abbrev pub give_ret : {A : Type 0} → Ret A → Try A
give_ret (val a) = give a
give_ret (err code) = throw code

unfoldable pub receive : Calls → Dev → Try (List ℕ)
receive c d = try err_rx (fido_rx c.driver d cmd_cbor fido_maxmsg)

-- `fido_rx` and `cbor_parse_reply`, from a state that the parser changes.
unfoldable pub receive_parsed : {S : Type 0} → Calls → Dev → Parser S → S → Try S
receive_parsed c d f s = do msg ← receive c d; give_ret (cbor_parse_reply c.cbor msg f s)

abbrev pub bad_text : List ℕ → Bool
bad_text bs = ltb (2 ^ 32 - 1) (length bs) || not (length bs % 16 == 0) || length bs == 0

unfoldable pub aes256_cbc : Calls → Bool → List ℕ → List ℕ → List ℕ → Option (List ℕ)
aes256_cbc c encrypt key iv bs =
    if not (length key == 32) || bad_text bs then none else c.aes256_cbc encrypt key iv bs

unfoldable pub aes256_cbc_proto1 : Calls → Bool → List ℕ → List ℕ → Option (List ℕ)
aes256_cbc_proto1 c encrypt key bs = aes256_cbc c encrypt key (replicate 16 0) bs

-- Failures are the C value -1.
abbrev pub fips_checks : List ℕ → List ℕ → Option (Unit {0})
fips_checks secret bs = if not (length secret == 64) || ltb (length bs) 16 then none else some tt

-- A random vector goes before the text.
unfoldable pub aes256_cbc_fips_enc : Calls → List ℕ → List ℕ → Try (List ℕ)
aes256_cbc_fips_enc c secret bs = do
  try_option err_internal (fips_checks secret bs)
  iv ← try err_internal (c.get_random 16)
  out ← try_option err_internal (aes256_cbc c true (drop 32 secret) iv bs)
  give (iv ++ out)

unfoldable pub aes256_cbc_fips_dec : Calls → List ℕ → List ℕ → Option (List ℕ)
aes256_cbc_fips_dec c secret bs = elim (fips_checks secret bs) [
  | none ↦ none
  | some u ↦ aes256_cbc c false (drop 32 secret) (take 16 bs) (drop 16 bs)
]

-- Every caller of this gives FIDO_ERR_INTERNAL if it fails.
unfoldable pub aes256_cbc_enc : Calls → Dev → List ℕ → List ℕ → Try (List ℕ)
aes256_cbc_enc c d secret bs =
    if fido_dev_get_pin_protocol d == 2
    then aes256_cbc_fips_enc c secret bs
    else try_option err_internal (aes256_cbc_proto1 c true secret bs)

unfoldable pub aes256_cbc_dec : Calls → Dev → List ℕ → List ℕ → Option (List ℕ)
aes256_cbc_dec c d secret bs =
    if fido_dev_get_pin_protocol d == 2
    then aes256_cbc_fips_dec c secret bs
    else aes256_cbc_proto1 c false secret bs

abbrev pub concat? : Option (List ℕ) → Option (List ℕ) → Option (List ℕ)
concat? none b = none
concat? (some a) none = none
concat? (some a) (some b) = some (a ++ b)

-- The two halves of a key under protocol 2 are for HMAC and for AES.
unfoldable pub kdf : Calls → ℕ → List ℕ → Option (List ℕ)
kdf c prot secret =
    if prot == 1
    then c.sha256 secret
    else if prot == 2
    then concat? (c.hkdf_sha256 (codes "CTAP2 HMAC key") secret)
        (c.hkdf_sha256 (codes "CTAP2 AES key") secret)
    else none

unfoldable pub do_ecdh : Calls → Dev → List ℕ → Es256Pk → Option (List ℕ)
do_ecdh c d sk pk = elim (c.derive sk pk) [
  | none ↦ none
  | some secret ↦ kdf c (fido_dev_get_pin_protocol d) secret
]

abbrev pub cbor_client_pin : ℕ
cbor_client_pin = 0x06

unfoldable pub parse_authkey : Parser Es256Pk
parse_authkey = by_number λ n v k. if n == 1 then es256_pk_decode v k else some k

unfoldable pub fido_dev_authkey_tx : Calls → Dev → Try (Unit {0})
fido_dev_authkey_tx c d = do
  opt ← try_option err_internal (cbor_encode_pin_opt d)
  send_frame c d cbor_client_pin (some opt ∷ some (uint 1 2) ∷ [])

unfoldable pub fido_dev_authkey_rx : Calls → Dev → Try Es256Pk
fido_dev_authkey_rx c d = receive_parsed c d parse_authkey (blank_point 32)

unfoldable pub fido_dev_authkey : Calls → Dev → Try Es256Pk
fido_dev_authkey c d = do fido_dev_authkey_tx c d; fido_dev_authkey_rx c d

abbrev pub internal_if : {A : Type 0} → Ret A → Try A
internal_if (val a) = give a
internal_if (err code) = throw err_internal

-- A call whose code is not passed on.
abbrev pub or_internal : {A : Type 0} → Try A → Try A
or_internal call = do r ← try err_internal call; internal_if r

-- Our public key, and the secret that is shared with the device.
unfoldable pub fido_do_ecdh : Calls → Dev → Try (Es256Pk × List ℕ)
fido_do_ecdh c d = do
  key ← try err_internal c.new_key
  ak ← or_internal (fido_dev_authkey c d)
  secret ← try_option err_internal (do_ecdh c d key.0 ak)
  give (key.1, secret)

-- A code of the device other than FIDO_OK is the outcome of the whole.
unfoldable pub device_accepts : Calls → Dev → Try (Unit {0})
device_accepts c d = do
  r ← try err_rx (fido_rx_cbor_status c.driver d)
  if eqb_ℤ r fido_ok then give tt else throw r

-- `int ms = dev->timeout_ms`
abbrev pub with_timeout : {A : Type 0} → Dev → Try A → Try A
with_timeout d call w = call (record w { ms = d.timeout_ms })

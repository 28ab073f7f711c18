-- ===== src/Largeblob/Store.antt =====
-- src/largeblob.c: storing the array, and the blobs in it.
use fido2_manage.Prelude.{
  ℕ, zero, suc, ◌+◌, ◌-◌, ◌^◌, true, false, ◌||◌, List, [], ◌∷◌, ◌++◌, Option, none, some, length,
  take, drop, replicate, ltb, ◌==◌, ℤ, eqb_ℤ, le32, if◌then◌else◌,
}
use fido2_manage.Platform.{hang}
use fido2_manage.Err.{fido_ok, err_tx, err_rx, err_internal, err_invalid_argument}
use fido2_manage.Try.{Ret, val, err, Try, ◌>>=◌, ◌>>◌, give, try, try_option}
use fido2_manage.Device.{Dev}
use fido2_manage.Blob.{size_max}
use fido2_manage.Flags.{fido_dev_supports_permissions}
use fido2_manage.Io.{fido_tx, fido_rx_cbor_status}
use fido2_manage.Cbor.{Value, bytestring, Item, definite_array, cbor_build_frame, cbor_build_uint}
use fido2_manage.Cbor.Auth.{cbor_encode_pin_auth, cbor_encode_pin_opt}
use fido2_manage.Ctap.{fido_do_ecdh}
use fido2_manage.Pin.{fido_dev_get_uv_token}
use fido2_manage.Ctap.{cmd_cbor, give_ret}
use fido2_manage.Largeblob.{Calls, cbor_largeblob, get_chunklen, as_array}

unfoldable pub prepare_hmac : Calls → ℕ → List ℕ → Option (List ℕ)
prepare_hmac c offset bs =
    if length bs == 0 || ltb (2 ^ 32 - 1) offset then none else elim (c.ctap.sha256 bs) [
      | none ↦ none
      | some h ↦ some (replicate 32 0xff ++ (cbor_largeblob ∷ 0 ∷ le32 offset) ++ h)
    ]

-- The last two arguments, which a token brings.
unfoldable pub token_args : Calls → Dev → Option (List ℕ) → List ℕ → ℕ → Try (List (Option Value))
token_args c d none chunk offset = give (none ∷ none ∷ [])
token_args c d (some token) chunk offset = do
  hmac ← try_option err_internal (prepare_hmac c offset chunk)
  auth ← try_option err_internal (cbor_encode_pin_auth c.ctap.hmac_sha256 d token hmac)
  opt ← try_option err_internal (cbor_encode_pin_opt d)
  give (some auth ∷ some opt ∷ [])

unfoldable pub largeblob_set_tx : Calls → Dev → Option (List ℕ) → List ℕ → ℕ → ℕ → Try (Unit {0})
largeblob_set_tx c d token chunk offset totalsiz = do
  args ← token_args c d token chunk offset
  let total = if offset == 0 then some (cbor_build_uint totalsiz) else none
  f ← try_option err_tx (
      cbor_build_frame c.ctap.cbor cbor_largeblob
        (none ∷ some (bytestring chunk) ∷ some (cbor_build_uint offset) ∷ total ∷ args))
  try err_tx (fido_tx c.ctap.driver d cmd_cbor f)

abbrev pub code_of : ℤ → Ret (Unit {0})
code_of r = if eqb_ℤ r fido_ok then val tt else err r

unfoldable pub rx_status : Calls → Dev → Try (Unit {0})
rx_status c d = do r ← try err_rx (fido_rx_cbor_status c.ctap.driver d); give_ret (code_of r)

-- A fragment is sent, and the device accepts it.
unfoldable pub set_fragment : Calls → Dev → Option (List ℕ) → List ℕ → ℕ → ℕ → Try (Unit {0})
set_fragment c d token chunk offset totalsiz = do
  largeblob_set_tx c d token chunk offset totalsiz
  rx_status c d

-- The loop of `largeblob_set_array`; `rest` is what stands at `cbor.ptr + offset`. A round sends a
-- byte at least, as the length of a fragment is not 0.
unfoldable pub set_body : ℕ → Calls → Dev → Option (List ℕ) → ℕ → ℕ → ℕ → List ℕ → Try (Unit {0})
set_body zero c d token maxchunklen totalsiz offset rest w = (hang, w)
set_body (suc fuel) c d token maxchunklen totalsiz offset rest w =
    let chunklen = if ltb maxchunklen (length rest) then maxchunklen else length rest in
    elim (length rest == 0) [
      | true ↦ give tt w
      | false ↦
          (do
            set_fragment c d token (take chunklen rest) offset totalsiz
            set_body fuel c d token maxchunklen totalsiz (offset + chunklen) (drop chunklen rest))
            w
    ]

unfoldable pub largeblob_get_uv_token : Calls → Dev → Option (List ℕ) → Try (List ℕ)
largeblob_get_uv_token c d pin = do
  k ← fido_do_ecdh c.ctap d
  fido_dev_get_uv_token c.ctap d cbor_largeblob pin k.1 k.0 none

abbrev pub ask_token : Calls → Dev → Option (List ℕ) → Try (Option (List ℕ))
ask_token c d pin = do t ← largeblob_get_uv_token c d pin; give (some t)

abbrev pub uv_token : Calls → Dev → Option (List ℕ) → Try (Option (List ℕ))
uv_token c d none = if fido_dev_supports_permissions d then ask_token c d none else give none
uv_token c d (some pin) = ask_token c d (some pin)

abbrev pub full : List ℕ → Option (List ℕ)
full bs = if length bs == 0 then none else some bs

-- The body, and then the first 16 bytes of its hash.
unfoldable pub set_parts : Calls → Dev → Option (List ℕ) → ℕ → List ℕ → List ℕ → Try (Unit {0})
set_parts c d token maxchunklen bytes dgst = do
  let totalsize = length bytes + 32 - 16
  set_body (suc (length bytes)) c d token maxchunklen totalsize 0 bytes
  set_fragment c d token (take 16 dgst) (length bytes) totalsize

unfoldable pub largeblob_set_array : Calls → Dev → Item → Option (List ℕ) → Try (Unit {0})
largeblob_set_array c d item pin = do
  let maxchunklen = get_chunklen d
  array ← try_option err_invalid_argument (if maxchunklen == 0 then none else as_array (some item))
  bytes ← try_option err_internal (full (c.ctap.cbor.serialize (definite_array array)))
  try_option err_invalid_argument (if ltb (size_max - 32) (length bytes) then none else some tt)
  dgst ← try_option err_internal (c.ctap.sha256 bytes)
  token ← uv_token c d pin
  set_parts c d token maxchunklen bytes dgst

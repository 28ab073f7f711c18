-- ===== src/Largeblob.antt =====
-- src/largeblob.c: the array of encrypted blobs that a device stores.
pub mod RoundTrip
mod Tests
pub mod Placed
pub mod Sealed
pub mod Written
pub mod Whole
pub mod Fetch
pub mod Blobs
pub mod Store
use fido2_manage.Prelude.{
  ℕ, zero, suc, ◌+◌, ◌-◌, ◌^◌, Bool, true, false, not, ◌&&◌, ◌||◌, List, [], ◌∷◌, ◌++◌, Option,
  none, some, length, take, drop, set, replicate, ltb, leb, ◌==◌, bytes_eq, ℤ, eqb_ℤ, le32, le64,
  if◌then◌else◌,
}
use fido2_manage.Platform.{World, M, hang, attempt}
use fido2_manage.Err.{fido_ok, err_tx, err_rx, err_internal, err_invalid_argument, err_notfound}
use fido2_manage.Try.{Ret, val, err, Try, ◌>>=◌, ◌>>◌, give, throw, try, try_option, rest_of}
use fido2_manage.Device.{Dev, Driver}
use fido2_manage.Blob.{Blob, blob_bytes, fido_blob_is_empty, fido_blob_append, size_max}
use fido2_manage.Flags.{fido_dev_supports_permissions, fido_dev_get_pin_protocol}
use fido2_manage.Io.{fido_tx, fido_rx, fido_rx_cbor_status}
use fido2_manage.Cbor.{
  Value, uint, bytestring, Pairs, Entry, entry_map, entry_other, Item, definite_map, definite_array,
  other_item, Libcbor, cbor_parse_reply, cbor_map_iter, cbor_bytestring_copy, cbor_build_frame,
  cbor_array_append, cbor_array_drop, cbor_build_uint,
}
use fido2_manage.Ctap
use fido2_manage.Ctap.{cmd_cbor, fido_maxmsg, give_ret}
use fido2_manage.Compress.{Zlib, fido_compress, fido_uncompress}

-- What largeblob.c calls beside what other commands call: zlib, and AES-256-GCM of OpenSSL (`none` if
-- it fails).
pub record Calls : Type 0 where
  pub ctap : Ctap.Calls
  pub zlib : Zlib
  -- The key, the nonce, the additional data and the text. The tag is the last 16 bytes.
  pub gcm_seal : List ℕ → List ℕ → List ℕ → List ℕ → Option (List ℕ)
  pub gcm_open : List ℕ → List ℕ → List ℕ → List ℕ → Option (List ℕ)

abbrev pub cbor_largeblob : ℕ
cbor_largeblob = 0x0c

abbrev pub digest_length : ℕ
digest_length = 16

-- `largeblob_t`
pub record LargeBlob : Type 0 where
  pub origsiz : ℕ
  pub ciphertext : Blob
  pub nonce : Blob

-- The checks of `aes256_gcm`, the same in both directions.
unfoldable pub gcm_params : List ℕ → List ℕ → List ℕ → List ℕ → Bool
gcm_params key nonce aad bs =
    not (length nonce == 12 && length key == 32)
    || ltb (2 ^ 32 - 1) (length aad)
    || ltb (2 ^ 32 - 1) (length bs)
    || ltb (length bs) 16

unfoldable pub aes256_gcm_enc : Calls → List ℕ → List ℕ → List ℕ → List ℕ → Option (List ℕ)
aes256_gcm_enc c key nonce aad bs =
    if gcm_params key nonce aad bs then none else c.gcm_seal key nonce aad bs

unfoldable pub aes256_gcm_dec : Calls → List ℕ → List ℕ → List ℕ → List ℕ → Option (List ℕ)
aes256_gcm_dec c key nonce aad bs =
    if gcm_params key nonce aad bs then none else c.gcm_open key nonce aad bs

-- "blob" and the size.
unfoldable pub largeblob_aad : ℕ → List ℕ
largeblob_aad size = 0x62 ∷ 0x6c ∷ 0x6f ∷ 0x62 ∷ le64 size

unfoldable pub largeblob_decrypt : Calls → LargeBlob → List ℕ → Option (List ℕ)
largeblob_decrypt c blob key =
    aes256_gcm_dec c key (blob_bytes blob.nonce) (largeblob_aad blob.origsiz)
      (blob_bytes blob.ciphertext)

abbrev pub value_of : Ret (List ℕ) → Option (List ℕ)
value_of (val bs) = some bs
value_of (err code) = none

-- Every failure is the C value -1, and its caller gives FIDO_ERR_INTERNAL.
unfoldable pub largeblob_seal : Calls → List ℕ → List ℕ → Try LargeBlob
largeblob_seal c body key = do
  plaintext ← try_option err_internal (value_of (fido_compress c.zlib body))
  nonce ← try err_internal (c.ctap.get_random 12)
  ct ← try_option err_internal (aes256_gcm_enc c key nonce (largeblob_aad (length body)) plaintext)
  give (record { origsiz = length body; ciphertext = some ct; nonce = some nonce })

-- `size_t`
unfoldable pub get_chunklen : Dev → ℕ
get_chunklen d =
    let maxchunklen = if ltb fido_maxmsg d.maxmsgsize then fido_maxmsg else d.maxmsgsize in
    if ltb 64 maxchunklen then maxchunklen - 64 else 0

unfoldable pub largeblob_get_tx : Calls → Dev → ℕ → ℕ → Try (Unit {0})
largeblob_get_tx c d offset count = do
  f ← try_option err_tx (
      cbor_build_frame c.ctap.cbor cbor_largeblob
        (some (cbor_build_uint count) ∷ none ∷ some (cbor_build_uint offset) ∷ []))
  try err_tx (fido_tx c.ctap.driver d cmd_cbor f)

-- `cbor_isa_uint(key) && cbor_int_get_width(key) == CBOR_INT_8`
abbrev pub key_8 : Value → Option ℕ
key_8 (uint w n) = if w == 1 then some n else none
key_8 v = none

unfoldable pub parse_largeblob_reply : Value → Value → Blob → Option Blob
parse_largeblob_reply key v chunk = elim (key_8 key) [
  | none ↦ some chunk
  | some k ↦ if k == 1 then cbor_bytestring_copy v chunk else some chunk
]

unfoldable pub largeblob_get_rx : Calls → Dev → Try Blob
largeblob_get_rx c d = do
  msg ← try err_rx (fido_rx c.ctap.driver d cmd_cbor fido_maxmsg)
  give_ret (cbor_parse_reply c.ctap.cbor msg parse_largeblob_reply none)

abbrev pub as_array : Option Item → Option (List Entry)
as_array none = none
as_array (some (definite_array items)) = some items
as_array (some (definite_map pairs)) = none
as_array (some other_item) = none

unfoldable pub largeblob_array_load : Calls → List ℕ → Option (List Entry)
largeblob_array_load c bs =
    if ltb (length bs) digest_length
    then none
    else as_array (c.ctap.cbor.load (take (length bs - digest_length) bs))

unfoldable pub largeblob_array_digest : Calls → List ℕ → Option (List ℕ)
largeblob_array_digest c bs =
    if length bs == 0
    then none
    else elim (c.ctap.sha256 bs) [ none ↦ none | some dgst ↦ some (take digest_length dgst) ]

-- Whether the C value is 0.
unfoldable pub largeblob_array_check : Calls → List ℕ → Bool
largeblob_array_check c bs =
    let n = length bs - digest_length in
    if ltb (length bs) digest_length then false else elim (largeblob_array_digest c (take n bs)) [
      | none ↦ false
      | some expected ↦ bytes_eq expected (drop n bs)
    ]

unfoldable pub get_chunk : Calls → Dev → ℕ → ℕ → Try Blob
get_chunk c d offset n = do largeblob_get_tx c d offset n; largeblob_get_rx c d

-- What was appended, or not.
abbrev pub appended : Bool × Blob → Try Blob
appended (true, array) = give array
appended (false, array) = throw err_internal

-- The loop of `largeblob_get_array`. A round takes an outcome of the driver's reads.
unfoldable pub get_chunks : ℕ → Calls → Dev → ℕ → Blob → Try Blob
get_chunks zero c d n array w = (hang, w)
get_chunks (suc fuel) c d n array w =
    (do
      chunk ← get_chunk c d (length (blob_bytes array)) n
      array' ← appended (fido_blob_append array chunk)
      elim (length (blob_bytes chunk) == n) [
        | true ↦ get_chunks fuel c d n array'
        | false ↦ give array'
      ])
      w

abbrev pub get_all_chunks : Calls → Dev → Try Blob
get_all_chunks c d w = get_chunks (suc (length w.incoming)) c d (get_chunklen d) none w

-- An array whose digest is wrong counts as empty.
unfoldable pub checked_array : Calls → List ℕ → Option (List Entry)
checked_array c bs = if largeblob_array_check c bs then largeblob_array_load c bs else some []

unfoldable pub largeblob_get_array : Calls → Dev → Try (List Entry)
largeblob_get_array c d = do
  try_option err_invalid_argument (if get_chunklen d == 0 then none else some tt)
  array ← get_all_chunks c d
  try_option err_internal (checked_array c (blob_bytes array))

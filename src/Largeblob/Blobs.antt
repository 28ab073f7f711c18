-- ===== src/Largeblob/Blobs.antt =====
-- src/largeblob.c: the blobs in the array, and the public functions.
use fido2_manage.Prelude.{
  ℕ, suc, not, ◌||◌, List, [], ◌∷◌, Option, none, some, length, set, ltb, ◌==◌, eqb_ℤ,
  if◌then◌else◌,
}
use fido2_manage.Err.{err_internal, err_invalid_argument, err_notfound}
use fido2_manage.Try.{Ret, val, err, Try, ◌>>=◌, give, try_option}
use fido2_manage.Device.{Dev}
use fido2_manage.Blob.{Blob, blob_bytes, fido_blob_is_empty}
use fido2_manage.Cbor.{
  Value, uint, bytestring, Entry, entry_map, entry_other, definite_array, cbor_map_iter,
  cbor_bytestring_copy, cbor_build_uint, cbor_flatten_vector, cbor_array_append, cbor_array_drop,
}
use fido2_manage.Compress.{fido_uncompress}
use fido2_manage.Ctap.{give_ret}
use fido2_manage.Largeblob.{
  Calls, LargeBlob, largeblob_decrypt, largeblob_seal, key_8, largeblob_get_array,
}
use fido2_manage.Largeblob.Store.{full, largeblob_set_array}

abbrev pub blank_blob : LargeBlob
blank_blob = record { origsiz = 0; ciphertext = none; nonce = none }

abbrev pub put_ciphertext : LargeBlob → Option Blob → Option LargeBlob
put_ciphertext blob none = none
put_ciphertext blob (some ct) =
    if ltb (length (blob_bytes ct)) 16 then none else some (record blob { ciphertext = ct })

abbrev pub put_nonce : LargeBlob → Option Blob → Option LargeBlob
put_nonce blob none = none
put_nonce blob (some n) =
    if not (length (blob_bytes n) == 12) then none else some (record blob { nonce = n })

abbrev pub put_origsiz : LargeBlob → Value → Option LargeBlob
put_origsiz blob (uint w n) = some (record blob { origsiz = n })
put_origsiz blob v = none

-- The switch on the key.
abbrev pub decode_field : ℕ → Value → LargeBlob → Option LargeBlob
decode_field k v blob =
    if k == 1
    then put_ciphertext blob (cbor_bytestring_copy v blob.ciphertext)
    else if k == 2
    then put_nonce blob (cbor_bytestring_copy v blob.nonce)
    else if k == 3
    then put_origsiz blob v
    else some blob

unfoldable pub largeblob_do_decode : Value → Value → LargeBlob → Option LargeBlob
largeblob_do_decode key v blob = elim (key_8 key) [
  | none ↦ some blob
  | some k ↦ decode_field k v blob
]

abbrev pub complete : Option LargeBlob → Option LargeBlob
complete none = none
complete (some blob) =
    if fido_blob_is_empty blob.ciphertext || fido_blob_is_empty blob.nonce || blob.origsiz == 0
    then none
    else some blob

unfoldable pub largeblob_decode : LargeBlob → Entry → Option LargeBlob
largeblob_decode blob (entry_other bs) = none
largeblob_decode blob (entry_map pairs) = complete (cbor_map_iter largeblob_do_decode pairs blob)

unfoldable pub largeblob_encode : Calls → List ℕ → List ℕ → Try Entry
largeblob_encode c body key = do
  blob ← largeblob_seal c body key
  pairs ← try_option err_internal (
      cbor_flatten_vector (
        some (bytestring (blob_bytes blob.ciphertext))
        ∷ some (bytestring (blob_bytes blob.nonce))
        ∷ some (cbor_build_uint blob.origsiz)
        ∷ []))
  give (entry_map pairs)

-- An entry that is a blob under the key: the text, and the size that is announced for it.
abbrev pub open_blob : Calls → List ℕ → Option LargeBlob → Option (List ℕ × ℕ)
open_blob c key none = none
open_blob c key (some blob) = elim (largeblob_decrypt c blob key) [
  | none ↦ none
  | some plaintext ↦ some (plaintext, blob.origsiz)
]

unfoldable pub try_entry : Calls → List ℕ → Entry → Option (List ℕ × ℕ)
try_entry c key entry = open_blob c key (largeblob_decode blank_blob entry)

-- The loop of `largeblob_array_lookup` from the index `i` on.
unfoldable pub lookup_from : Calls → List ℕ → ℕ → List Entry → Option (ℕ × (List ℕ × ℕ))
lookup_from c key i [] = none
lookup_from c key i (entry ∷ entries) = elim (try_entry c key entry) [
  | some found ↦ some (i, found)
  | none ↦ lookup_from c key (suc i) entries
]

-- The index, the text and its size, or FIDO_ERR_NOTFOUND.
unfoldable pub largeblob_array_lookup : Calls → List ℕ → List Entry → Ret (ℕ × (List ℕ × ℕ))
largeblob_array_lookup c key array = elim (lookup_from c key 0 array) [
  | none ↦ err err_notfound
  | some found ↦ val found
]

-- The array with the item in the place of the blob under the key, or at its end.
abbrev pub placed : List Entry → Entry → Ret (ℕ × (List ℕ × ℕ)) → Ret (List Entry)
placed array item (val (idx, found)) = val (set array idx item)
placed array item (err code) =
    if eqb_ℤ code err_notfound then val (cbor_array_append array item) else err code

unfoldable pub largeblob_add : Calls → Dev → List ℕ → Entry → Option (List ℕ) → Try (Unit {0})
largeblob_add c d key item pin = do
  array ← largeblob_get_array c d
  array' ← give_ret (placed array item (largeblob_array_lookup c key array))
  largeblob_set_array c d (definite_array array') pin

unfoldable pub largeblob_drop : Calls → Dev → List ℕ → Option (List ℕ) → Try (Unit {0})
largeblob_drop c d key pin = do
  array ← largeblob_get_array c d
  (idx, found) ← give_ret (largeblob_array_lookup c key array)
  array' ← try_option err_internal (cbor_array_drop array idx)
  largeblob_set_array c d (definite_array array') pin

-- `int ms = dev->timeout_ms`
abbrev pub with_timeout : {A : Type 0} → Dev → Try A → Try A
with_timeout d call w = call (record w { ms = d.timeout_ms })

abbrev pub key_32 : List ℕ → Option (List ℕ)
key_32 key = if not (length key == 32) then none else some key

unfoldable pub fido_dev_largeblob_get : Calls → Dev → List ℕ → Try (List ℕ)
fido_dev_largeblob_get c d key = with_timeout d (do
  key ← try_option err_invalid_argument (key_32 key)
  array ← largeblob_get_array c d
  (idx, (plaintext, origsiz)) ← give_ret (largeblob_array_lookup c key array)
  give_ret (fido_uncompress c.zlib plaintext origsiz))

unfoldable pub fido_dev_largeblob_set :
    Calls → Dev → List ℕ → Option (List ℕ) → Option (List ℕ) → Try (Unit {0})
fido_dev_largeblob_set c d key blob pin = with_timeout d (do
  key ← try_option err_invalid_argument (key_32 key)
  body ← try_option err_invalid_argument (full (blob_bytes blob))
  item ← largeblob_encode c body key
  largeblob_add c d key item pin)

unfoldable pub fido_dev_largeblob_remove : Calls → Dev → List ℕ → Option (List ℕ) → Try (Unit {0})
fido_dev_largeblob_remove c d key pin =
    with_timeout d
      (do key ← try_option err_invalid_argument (key_32 key); largeblob_drop c d key pin)

unfoldable pub fido_dev_largeblob_get_array : Calls → Dev → Try (List ℕ)
fido_dev_largeblob_get_array c d = with_timeout d (do
  array ← largeblob_get_array c d
  try_option err_internal (full (c.ctap.cbor.serialize (definite_array array))))

unfoldable pub fido_dev_largeblob_set_array :
    Calls → Dev → Option (List ℕ) → Option (List ℕ) → Try (Unit {0})
fido_dev_largeblob_set_array c d bytes pin = with_timeout d (do
  bs ← try_option err_invalid_argument (full (blob_bytes bytes))
  item ← try_option err_invalid_argument (c.ctap.cbor.load bs)
  largeblob_set_array c d item pin)

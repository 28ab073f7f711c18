-- ===== src/Largeblob/Sealed.antt =====
-- src/largeblob.c: a blob that is sealed and put in the array is found again under its key.
use fido2_manage.Prelude.{
  ℕ, ◌+◌, ◌^◌, ◌≤◌, ◌<◌, ◌≡◌, ap, refl, ◌∙◌, Bool, true, false, List, [], ◌∷◌, Option, none, some,
  length, ltb, ◌==◌, if◌then◌else◌, arith,
}
use fido2_manage.Platform.{World, ok}
use fido2_manage.Try.{val}
use fido2_manage.Blob.{fido_blob_is_empty}
use fido2_manage.Cbor.{
  Value, uint, bytestring, Entry, entry_map, cbor_map_iter, map_loop, cbor_bytestring_copy,
  cbor_build_uint, cbor_flatten_vector, flatten_from, ctap_check_cbor, Parser, Pairs, in_order,
}
use fido2_manage.Compress.{fido_compress}
use fido2_manage.Largeblob.{
  Calls, LargeBlob, gcm_params, aes256_gcm_enc, aes256_gcm_dec, largeblob_aad, largeblob_decrypt,
  largeblob_seal,
}
use fido2_manage.Largeblob.Blobs.{
  blank_blob, put_origsiz, largeblob_do_decode, complete, largeblob_decode, largeblob_encode,
  open_blob, try_entry,
}

-- What is asked of the libraries for one blob: the text compresses to `text`, which is long enough
-- for the cipher's check; 12 random bytes are to be had; the cipher adds a tag of 16 bytes, and opens
-- what it sealed.
pub record IsSealable (c : Calls) (key body text nonce ct : List ℕ) (w w1 : World) : Type 0 where
  pub key_size : length key ≡ 32
  pub compressed : fido_compress c.zlib body ≡ val text
  pub random : c.ctap.get_random 12 w ≡ (ok nonce, w1)
  pub nonce_size : length nonce ≡ 12
  pub long : 16 ≤ length text
  pub short : length text + 16 < 2 ^ 32
  pub seal : c.gcm_seal key nonce (largeblob_aad (length body)) text ≡ some ct
  pub tag : length ct ≡ length text + 16
  pub opened : c.gcm_open key nonce (largeblob_aad (length body)) ct ≡ some text

-- The map that a blob is in the array.
abbrev pub entry_of : List ℕ → List ℕ → ℕ → Entry
entry_of ct nonce origsiz = entry_map (
    (uint 1 1, bytestring ct)
    ∷ (uint 1 2, bytestring nonce)
    ∷ (uint 1 3, cbor_build_uint origsiz)
    ∷ [])

put_origsiz-build :
    (blob : LargeBlob) (n : ℕ)
    → put_origsiz blob (cbor_build_uint n) ≡ some (record blob { origsiz = n })
unfolding cbor_build_uint
put_origsiz-build blob n = go (ltb n (2 ^ 8)) (ltb n (2 ^ 16)) (ltb n (2 ^ 32))
  where
    go :
        (a b e : Bool)
        → put_origsiz blob
            (if a then uint 1 n else if b then uint 2 n else if e then uint 4 n else uint 8 n)
          ≡ some (record blob { origsiz = n })
    go true b e = refl
    go false true e = refl
    go false false true = refl
    go false false false = refl

gcm_params-ok :
    (key nonce aad bs : List ℕ)
    → length key ≡ 32
    → length nonce ≡ 12
    → length aad ≡ 12
    → 16 ≤ length bs
    → length bs < 2 ^ 32
    → gcm_params key nonce aad bs ≡ false
unfolding gcm_params
gcm_params-ok key nonce aad bs k n a lo hi = ground (arith, k, n, a, lo, hi)

map_loop-cons :
    {S : Type 0} (f : Parser S) (prev : Option Value) (key v : Value) (pairs : Pairs) (s s' : S)
    → in_order prev key ≡ true
    → f key v s ≡ some s'
    → map_loop f prev ((key, v) ∷ pairs) s ≡ map_loop f (some key) pairs s'
unfolding map_loop
map_loop-cons f prev key v pairs s s' order parsed =
    rw (order, map_loop) (rw (parsed, map_loop) refl)

not_empty : (bs : List ℕ) → 1 ≤ length bs → fido_blob_is_empty (some bs) ≡ false
not_empty [] h = absurd (omega (arith, h))
not_empty (b ∷ bs) h = refl

decode-entry_of :
    (ct nonce : List ℕ) (n : ℕ)
    → 16 ≤ length ct
    → length nonce ≡ 12
    → 1 ≤ n
    → largeblob_decode blank_blob (entry_of ct nonce n)
      ≡ some (record { origsiz = n; ciphertext = some ct; nonce = some nonce })
unfolding largeblob_decode cbor_map_iter map_loop largeblob_do_decode cbor_bytestring_copy
    ctap_check_cbor
decode-entry_of ct nonce n lo size pos =
    let tagged : ltb (length ct) 16 ≡ false = ground (arith, lo) in
    let sized : (length nonce == 12) ≡ true = ground (arith, size) in
    let some_n : (n == 0) ≡ false = ground (arith, pos) in
    let filled =
      put_origsiz-build (record { origsiz = 0; ciphertext = some ct; nonce = some nonce }) n in
    let first : largeblob_do_decode (uint 1 1) (bytestring ct) blank_blob
        ≡ some (record { origsiz = 0; ciphertext = some ct; nonce = none }) =
      rw (tagged, largeblob_do_decode) refl in
    let second : largeblob_do_decode (uint 1 2) (bytestring nonce)
          (record { origsiz = 0; ciphertext = some ct; nonce = none })
        ≡ some (record { origsiz = 0; ciphertext = some ct; nonce = some nonce }) =
      rw (sized, largeblob_do_decode) refl in
    let b1 : LargeBlob = record { origsiz = 0; ciphertext = some ct; nonce = none } in
    let b2 : LargeBlob = record b1 { nonce = some nonce } in
    let b3 : LargeBlob = record b2 { origsiz = n } in
    let size_pair : Pairs = (uint 1 3, cbor_build_uint n) ∷ [] in
    let nonce_pair : Pairs = (uint 1 2, bytestring nonce) ∷ size_pair in
    let loop = map_loop-cons largeblob_do_decode in
    let looped : map_loop largeblob_do_decode none ((uint 1 1, bytestring ct) ∷ nonce_pair)
          blank_blob
        ≡ some b3 =
      loop none (uint 1 1) (bytestring ct) nonce_pair blank_blob b1 refl first
      ∙ loop (some (uint 1 1)) (uint 1 2) (bytestring nonce) size_pair b1 b2 refl second
      ∙ loop (some (uint 1 2)) (uint 1 3) (cbor_build_uint n) [] b2 b3 refl filled in
    let whole : complete (some b3) ≡ some b3 =
      rw (not_empty ct (omega (arith, lo)), not_empty nonce (omega (arith, size)), some_n) refl in
    ap complete looped ∙ whole

open_blob-some :
    (c : Calls) (key text : List ℕ) (blob : LargeBlob)
    → largeblob_decrypt c blob key ≡ some text
    → open_blob c key (some blob) ≡ some (text, blob.origsiz)
open_blob-some c key text blob h =
    ap (λ o. elim o [ none ↦ none | some plaintext ↦ some (plaintext, blob.origsiz) ]) h

-- With libraries that do as documented, a body that is not empty and whose compressed form has at
-- least 16 bytes is encoded, and the entry then opens under the same key, to the compressed form and
-- the body's size.
pub encode-Opens :
    (c : Calls) (key body text nonce ct : List ℕ) (w w1 : World)
    → IsSealable c key body text nonce ct w w1
    → 1 ≤ length body
    → (largeblob_encode c body key w ≡ (ok (val (entry_of ct nonce (length body))), w1))
      × (try_entry c key (entry_of ct nonce (length body)) ≡ some (text, length body))
unfolding largeblob_aad largeblob_encode try_entry cbor_flatten_vector flatten_from largeblob_seal
    aes256_gcm_enc aes256_gcm_dec largeblob_decrypt
encode-Opens c key body text nonce ct w w1 h pos =
    let aad = largeblob_aad (length body) in
    let params =
      gcm_params-ok key nonce aad text h.key_size h.nonce_size refl h.long
        (omega (arith, h.short)) in
    let params' =
      gcm_params-ok key nonce aad ct h.key_size h.nonce_size refl (omega (arith, h.tag, h.long))
        (omega (arith, h.tag, h.short)) in
    let blob : LargeBlob = record {
      origsiz = length body;
      ciphertext = some ct;
      nonce = some nonce;
    } in
    let sealed : aes256_gcm_enc c key nonce aad text ≡ some ct = rw (params, h.seal) refl in
    let opened : largeblob_decrypt c blob key ≡ some text = rw (params', h.opened) refl in
    let decoded =
      decode-entry_of ct nonce (length body) (omega (arith, h.tag, h.long)) h.nonce_size pos in
    (
      rw (h.compressed, h.random, sealed) refl,
      ap (open_blob c key) decoded ∙ open_blob-some c key text blob opened,
    )

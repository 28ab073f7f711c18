-- ===== src/Largeblob/Whole.antt =====
-- src/largeblob.c: the array that is read is the one that the device holds.
use fido2_manage.Prelude.{
  ℕ, zero, suc, ◌+◌, ◌-◌, ◌≤◌, ◌<◌, ◌≡◌, ap, refl, ◌∙◌, true, false, List, [], ◌∷◌, ◌++◌, none,
  some, length, take, drop, ltb, ◌==◌, arith, length-append, length-take, length-drop,
  take-append-drop, append-take, subst, drop-append, take-append, bytes_eq_refl,
}
use fido2_manage.Platform.{World, ok}
use fido2_manage.Err.{err_internal}
use fido2_manage.Try.{Ret, val, err, value_or}
use fido2_manage.Device.{Dev}
use fido2_manage.Cbor.{Entry, definite_array}
use fido2_manage.Blob.{Blob, blob_bytes, fido_blob_append, size_max}
use fido2_manage.Largeblob.{
  Calls, get_chunk, get_chunks, get_chunklen, checked_array, largeblob_get_array,
  largeblob_array_check, largeblob_array_digest, largeblob_array_load,
}
use fido2_manage.Largeblob.Fetch.{IsPlain, get_chunk-Ends}

-- From some world and offset on, the device answers the requests for fragments of at most `n` bytes
-- with those of `arr`, and the last of them has `left` bytes.
pub data Serves (c : Calls) (d : Dev) (n : ℕ) (arr : List ℕ) : ℕ → World → ℕ → World → Type 0 where
  last :
      (offset : ℕ) (w : World) (left : ℕ) (w' : World)
      → get_chunk c d offset n w ≡ (ok (val (some (drop offset arr))), w')
      → offset + left ≡ length arr
      → left < n
      → Serves c d n arr offset w left w'
  more :
      (offset : ℕ) (w w1 : World) (left : ℕ) (w' : World)
      → get_chunk c d offset n w ≡ (ok (val (some (take n (drop offset arr)))), w1)
      → offset + n ≤ length arr
      → Serves c d n arr (offset + n) w1 left w'
      → Serves c d n arr offset w left w'

-- An empty last fragment cannot be appended.
abbrev pub outcome : List ℕ → ℕ → Ret Blob
outcome arr zero = err err_internal
outcome arr (suc left) = val (some arr)

append_full :
    (b : Blob) (bs : List ℕ)
    → 1 ≤ length bs
    → length (blob_bytes b) + length bs ≤ size_max
    → fido_blob_append b (some bs) ≡ (true, some (blob_bytes b ++ bs))
unfolding fido_blob_append
append_full b [] h room = absurd (omega arith)
append_full b (x ∷ xs) h room =
    let fits : ltb (size_max - length (blob_bytes b)) (length (x ∷ xs)) ≡ false =
      ground (arith, room) in
    rw fits refl

module _ (c : Calls) (d : Dev) (plain : IsPlain c d) (n : ℕ) (arr : List ℕ) where
  full_round :
      (fuel : ℕ) (array : Blob) (bs : List ℕ) (w w1 : World)
      → get_chunk c d (length (blob_bytes array)) n w ≡ (ok (val (some bs)), w1)
      → 1 ≤ length bs
      → length (blob_bytes array) + length bs ≤ size_max
      → (length bs == n) ≡ true
      → get_chunks (suc fuel) c d n array w
        ≡ get_chunks fuel c d n (some (blob_bytes array ++ bs)) w1
  unfolding get_chunks
  full_round fuel array bs w w1 e full room same = rw (e, append_full array bs full room, same) refl

  last_round :
      (fuel : ℕ) (array : Blob) (bs : List ℕ) (w w1 : World)
      → get_chunk c d (length (blob_bytes array)) n w ≡ (ok (val (some bs)), w1)
      → 1 ≤ length bs
      → length (blob_bytes array) + length bs ≤ size_max
      → (length bs == n) ≡ false
      → get_chunks (suc fuel) c d n array w ≡ (ok (val (some (blob_bytes array ++ bs))), w1)
  unfolding get_chunks
  last_round fuel array bs w w1 e full room short =
      rw (e, append_full array bs full room, short) refl

  empty_round :
      (fuel : ℕ) (array : Blob) (bs : List ℕ) (w w1 : World)
      → get_chunk c d (length (blob_bytes array)) n w ≡ (ok (val (some bs)), w1)
      → length bs ≡ 0
      → get_chunks (suc fuel) c d n array w ≡ (ok (err err_internal), w1)
  unfolding get_chunks fido_blob_append
  empty_round fuel array [] w w1 e h = rw e refl
  empty_round fuel array (x ∷ xs) w w1 e h = absurd (omega arith)

  get_chunks-Serves :
      (fuel offset : ℕ) (array : Blob) (w : World) (left : ℕ) (w' : World)
      → Serves c d n arr offset w left w'
      → blob_bytes array ≡ take offset arr
      → offset ≤ length arr
      → length arr ≤ size_max
      → 1 ≤ n
      → length w.incoming < fuel
      → get_chunks fuel c d n array w ≡ (ok (outcome arr left), w')
  get_chunks-Serves zero offset array w left w' s got le size pos hf = absurd (omega (arith, hf))
  get_chunks-Serves (suc fuel) offset array w zero w' (last off w0 l w1 e total small) got le size
        pos hf =
      let at : length (blob_bytes array) ≡ offset =
        ap length got ∙ length-take offset arr ∙ omega (arith, le) in
      empty_round fuel array (drop offset arr) w w' (rw at e)
        (omega (arith, length-drop offset arr, total))
  get_chunks-Serves (suc fuel) offset array w (suc left) w' (last off w0 l w1 e total small) got le
        size pos hf =
      let at : length (blob_bytes array) ≡ offset =
        ap length got ∙ length-take offset arr ∙ omega (arith, le) in
      let rest = length-drop offset arr in
      let short : (length (drop offset arr) == n) ≡ false = ground (arith, rest, total, small) in
      last_round fuel array (drop offset arr) w w' (rw at e) (omega (arith, rest, total))
        (omega (arith, at, rest, total, size)) short
      ∙ rw (got, take-append-drop offset arr) refl
  get_chunks-Serves (suc fuel) offset array w left w' (more off w0 w1 l w2 e total s) got le size
        pos hf =
      let at : length (blob_bytes array) ≡ offset =
        ap length got ∙ length-take offset arr ∙ omega (arith, le) in
      let piece = take n (drop offset arr) in
      let len : length piece ≡ n =
        length-take n (drop offset arr) ∙ omega (arith, length-drop offset arr, total) in
      let full : (length piece == n) ≡ true = ground (arith, len) in
      let read = (get_chunk-Ends c d plain offset n w).value (val (some piece)) (ap (λ r. r.0) e) in
      let fewer : length w1.incoming < length w.incoming =
        subst (λ v. length v.incoming < length w.incoming) (ap (λ r. r.1) e) read in
      let joined : blob_bytes array ++ piece ≡ take (offset + n) arr =
        rw got (append-take offset n arr) in
      full_round fuel array piece w w1 (rw at e) (omega (arith, len, pos))
        (omega (arith, at, len, total, size)) full
      ∙ get_chunks-Serves fuel (offset + n) (some (blob_bytes array ++ piece)) w1 left w' s joined
          (omega (arith, total)) size pos (omega (arith, fewer, hf))

-- What is made of an array that the device holds, by the length of its last fragment.
abbrev pub read_array : Calls → List ℕ → ℕ → Ret (List Entry)
read_array c arr zero = err err_internal
read_array c arr (suc left) = value_or err_internal (checked_array c arr)

-- If the device answers each request with the bytes of its array at that offset, as many as were
-- asked for and are left, then largeblob_get_array takes all of the array, and checks it. The one
-- exception is an array whose length is a multiple of the fragment's: the last answer is then empty,
-- and the call gives FIDO_ERR_INTERNAL.
pub get_array-Serves :
    (c : Calls) (d : Dev) (arr : List ℕ) (w : World) (left : ℕ) (w' : World)
    → IsPlain c d
    → 1 ≤ get_chunklen d
    → length arr ≤ size_max
    → Serves c d (get_chunklen d) arr 0 w left w'
    → largeblob_get_array c d w ≡ (ok (read_array c arr left), w')
unfolding largeblob_get_array
get_array-Serves c d arr w zero w' plain pos size s =
    let some_chunk : (get_chunklen d == 0) ≡ false = ground (arith, pos) in
    rw
      (
        some_chunk,
        get_chunks-Serves c d plain (get_chunklen d) arr (suc (length w.incoming)) 0 none w zero w'
            s refl (omega arith) size pos (omega arith),
      )
      refl
get_array-Serves c d arr w (suc left) w' plain pos size s =
    let some_chunk : (get_chunklen d == 0) ≡ false = ground (arith, pos) in
    rw
      (
        some_chunk,
        get_chunks-Serves c d plain (get_chunklen d) arr (suc (length w.incoming)) 0 none w
            (suc left) w' s refl (omega arith) size pos (omega arith),
      )
      refl

-- The bytes that largeblob_set_array sends.
abbrev pub stored : List ℕ → List ℕ → List ℕ
stored bytes dgst = bytes ++ take 16 dgst

-- An array as largeblob_set_array sends it, a definite array of CBOR followed by the first half of
-- its SHA-256 hash, passes the check, and it is decoded to the same entries, if libcbor can read what
-- it wrote.
pub checked_array-stored :
    (c : Calls) (bytes dgst : List ℕ) (entries : List Entry)
    → 1 ≤ length bytes
    → c.ctap.sha256 bytes ≡ some dgst
    → length dgst ≡ 32
    → c.ctap.cbor.load bytes ≡ some (definite_array entries)
    → checked_array c (stored bytes dgst) ≡ some entries
unfolding checked_array largeblob_array_check largeblob_array_digest largeblob_array_load
checked_array-stored c bytes dgst entries full hash size load =
    let half : length (take 16 dgst) ≡ 16 = length-take 16 dgst ∙ omega (arith, size) in
    let total = length-append bytes (take 16 dgst) in
    let long : ltb (length (stored bytes dgst)) 16 ≡ false = ground (arith, total, half) in
    let n : length (stored bytes dgst) - 16 ≡ length bytes = omega (arith, total, half) in
    let some_bytes : (length bytes == 0) ≡ false = ground (arith, full) in
    let front = take-append (length bytes) bytes (take 16 dgst) refl in
    let back = drop-append (length bytes) bytes (take 16 dgst) refl in
    let check : largeblob_array_check c (stored bytes dgst) ≡ true =
      rw (long, n, front, some_bytes, hash) (rw (n, back) (bytes_eq_refl (take 16 dgst))) in
    rw (check, long, n, front, load) refl

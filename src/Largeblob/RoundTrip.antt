-- ===== src/Largeblob/RoundTrip.antt =====
-- src/largeblob.c and src/compress.c: what is stored under a key is what is read back.
use fido2_manage.Prelude.{
  ℕ, ◌≤◌, ◌≡◌, refl, false, List, none, some, length, ltb, ◌==◌, ◌||◌, true, arith,
}
use fido2_manage.Platform.{World, ok}
use fido2_manage.Try.{val}
use fido2_manage.Cbor.{Entry}
use fido2_manage.Compress.{Zlib, bound, fido_uncompress, rfc1950_inflate, rfc1951_inflate}
use fido2_manage.Largeblob.{Calls}
use fido2_manage.Largeblob.Blobs.{largeblob_encode}
use fido2_manage.Largeblob.Sealed.{IsSealable, entry_of, encode-Opens}
use fido2_manage.Largeblob.Placed.{Findable, placed-Findable}

-- The text is a raw stream, which zlib's uncompress refuses and its inflate reads back.
pub record IsInflatable (z : Zlib) (body text : List ℕ) : Type 0 where
  pub size : length body ≤ bound
  pub text_size : length text ≤ bound
  pub not_wrapped : z.uncompress text (length body) ≡ none
  pub inflates : z.inflate text (length body) ≡ some body

uncompress-raw :
    (z : Zlib) (body text : List ℕ)
    → IsInflatable z body text
    → fido_uncompress z text (length body) ≡ val body
unfolding fido_uncompress rfc1950_inflate rfc1951_inflate
uncompress-raw z body text h =
    let fits : (ltb bound (length text) || ltb bound (length body)) ≡ false =
      ground (arith, h.size, h.text_size) in
    let same : (length body == length body) ≡ true = ground arith in
    rw (fits, h.not_wrapped, h.inflates, same) refl

-- With a cipher and a compression that do as documented, a body that is sealed under a key and put
-- in an array, in the place of the blob under that key or else at the end, is what the lookup under
-- that key finds afterwards, and uncompressing what was found gives the body.
pub stored_blob-Findable :
    (c : Calls) (key body text nonce ct : List ℕ) (array : List Entry) (w w1 : World)
    → IsSealable c key body text nonce ct w w1
    → IsInflatable c.zlib body text
    → 1 ≤ length body
    → let item = entry_of ct nonce (length body) in
      (largeblob_encode c body key w ≡ (ok (val item), w1))
      × Findable c key array item (text, length body)
      × (fido_uncompress c.zlib text (length body) ≡ val body)
stored_blob-Findable c key body text nonce ct array w w1 sealable inflatable full =
    let (encoded, opens) = encode-Opens c key body text nonce ct w w1 sealable full in
    (
      encoded,
      placed-Findable c key (entry_of ct nonce (length body)) (text, length body) opens array,
      uncompress-raw c.zlib body text inflatable,
    )

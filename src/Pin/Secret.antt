-- ===== src/Pin/Secret.antt =====
-- src/aes256.c: what is encrypted with the shared secret is decrypted with it, under both PIN protocols.
use fido2_manage.Prelude.{
  ℕ, ◌≡◌, ap, true, false, List, ◌++◌, some, length, drop, replicate, length-append, take-append,
  drop-append, ◌==◌, arith, Bool-cases, inl, inr,
}
use fido2_manage.Platform.{World, ok}
use fido2_manage.Err.{err_internal}
use fido2_manage.Try.{val, try_option, OnVal, option-OnVal, try-OnVal, give-OnVal}
use fido2_manage.Device.{Dev}
use fido2_manage.Flags.{fido_dev_get_pin_protocol}
use fido2_manage.Ctap.{
  Calls, aes256_cbc, aes256_cbc_proto1, fips_checks, aes256_cbc_fips_enc, aes256_cbc_fips_dec,
  aes256_cbc_enc, aes256_cbc_dec,
}

-- The cipher undoes what it did under the same key and vector, and keeps the length; random bytes
-- are as many as were asked for.
pub record IsCipher (c : Calls) : Type 0 where
  pub inverse :
      (key iv bs out : List ℕ)
      → c.aes256_cbc true key iv bs ≡ some out
      → c.aes256_cbc false key iv out ≡ some bs
  pub same_length :
      (key iv bs out : List ℕ) → c.aes256_cbc true key iv bs ≡ some out → length out ≡ length bs
  pub random_length :
      (n : ℕ) (w : World) (bs : List ℕ) → (c.get_random n w).0 ≡ ok bs → length bs ≡ n

module _ (c : Calls) (cipher : IsCipher c) where
  cbc_lem :
      (key iv bs out : List ℕ)
      → aes256_cbc c true key iv bs ≡ some out
      → aes256_cbc c false key iv out ≡ some bs × (length out ≡ length bs)
  unfolding aes256_cbc
  cbc_lem key iv bs out h =
      ground (arith, cipher.inverse key iv bs out, cipher.same_length key iv bs out)

  module _ (d : Dev) (secret bs : List ℕ) where
    Decrypts : List ℕ → Type 0
    Decrypts out = aes256_cbc_fips_dec c secret out ≡ some bs

    decrypted :
        (iv out : List ℕ)
        → fips_checks secret bs ≡ some tt
        → length iv ≡ 16
        → (aes256_cbc c false (drop 32 secret) iv out ≡ some bs) × (length out ≡ length bs)
        → aes256_cbc_fips_dec c secret (iv ++ out) ≡ some bs
    unfolding aes256_cbc_fips_dec
    decrypted iv out checked len dec = ground (
      arith,
      length-append iv out,
      take-append 16 iv out len,
      drop-append 16 iv out len,
      dec.0,
      checked,
    )

    fips_lem : (w : World) → OnVal Decrypts (aes256_cbc_fips_enc c secret bs w)
    unfolding aes256_cbc_fips_enc Decrypts
    fips_lem w = option-OnVal Decrypts err_internal (fips_checks secret bs) _ w λ u checked.
        try-OnVal Decrypts err_internal (c.get_random 16 w) _ λ iv w1 random.
          option-OnVal Decrypts err_internal (aes256_cbc c true (drop 32 secret) iv bs) _ w1
            λ out done. give-OnVal Decrypts (iv ++ out) w1 (
              decrypted iv out checked (cipher.random_length 16 w iv (ap (λ r. r.0) random))
                (cbc_lem (drop 32 secret) iv bs out done))

    proto1_lem :
        (w : World) (out : List ℕ)
        → (try_option err_internal (aes256_cbc_proto1 c true secret bs) w).0 ≡ ok (val out)
        → aes256_cbc_proto1 c false secret out ≡ some bs
    unfolding aes256_cbc_proto1
    proto1_lem w out e = (cbc_lem secret (replicate 16 0) bs out (ground (arith, e))).0

    -- With a cipher that undoes what it did, and keeps the length, and with as many random bytes
    -- as are asked for, what is encrypted for a device under the secret that is shared with it, is
    -- decrypted under that secret, whichever PIN protocol the device speaks.
    pub cbc_dec-cbc_enc :
        (w : World) (out : List ℕ)
        → (aes256_cbc_enc c d secret bs w).0 ≡ ok (val out)
        → aes256_cbc_dec c d secret out ≡ some bs
    unfolding aes256_cbc_enc aes256_cbc_dec Decrypts
    cbc_dec-cbc_enc w out e = elim (Bool-cases (fido_dev_get_pin_protocol d == 2)) [
      | inl two ↦ rw two (fips_lem w out (rw two at e))
      | inr one ↦ rw one (proto1_lem w out (rw one at e))
    ]

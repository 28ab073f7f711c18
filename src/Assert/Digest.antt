-- ===== src/Assert/Digest.antt =====
-- src/assert.c: what the checks of an assertion and the digest that is signed mean.
use fido2_manage.Prelude.{
  ℕ, ◌≡◌, ◌≢◌, some_equal, ap, ◌↔◌, refl, true, ◌||◌, List, ◌++◌, Option, none, some, length,
  length-append, bit_and, leb, eqb_ℤ, ℤ, bytes_eq, bytes_eq_sound, bytes_eq_refl, if◌then◌else◌,
  arith,
}
use fido2_manage.Err.{fido_ok}
use fido2_manage.Assert.{
  Crypto, Opt, opt_omit, opt_false, opt_true, cose_es256, cose_es384, cose_rs256, cose_eddsa,
  is_true, fido_check_flags, get_es256_hash, get_es384_hash, get_eddsa_hash, hash_decoded,
  same_hash, fido_check_rp_id, verify_digest,
}

-- What is signed of a message, by algorithm. An EdDSA key signs the message itself.
unfoldable pub digest : Crypto → ℤ → List ℕ → Option (List ℕ)
digest c alg message =
    if eqb_ℤ alg cose_es256 || eqb_ℤ alg cose_rs256
    then c.sha256 message
    else if eqb_ℤ alg cose_es384
    then c.sha384 message
    else if eqb_ℤ alg cose_eddsa
    then (if leb (length message) 1024 then some message else none)
    else none

is_true_iff : (o : Opt) → (is_true o ≡ true) ↔ (o ≡ opt_true)
is_true_iff opt_omit = ((λ e. cc), (λ e. cc))
is_true_iff opt_false = ((λ e. cc), (λ e. cc))
is_true_iff opt_true = ((λ e. refl), (λ e. refl))

pub check_flags_iff :
    (flags : ℕ) (up uv : Opt)
    → (fido_check_flags flags up uv ≡ true)
      ↔ ((up ≡ opt_true → bit_and flags 0x01 ≢ 0) × (uv ≡ opt_true → bit_and flags 0x04 ≢ 0))
unfolding fido_check_flags
check_flags_iff flags up uv = ground (arith, is_true_iff up, is_true_iff uv)

pub check_rp_id_iff :
    (c : Crypto) (id hash : List ℕ)
    → (fido_check_rp_id c id hash ≡ true) ↔ (c.sha256 id ≡ some hash)
unfolding fido_check_rp_id
check_rp_id_iff c id hash = go (c.sha256 id)
  where
    go : (o : Option (List ℕ)) → (same_hash o hash ≡ true) ↔ (o ≡ some hash)
    go none = ((λ e. cc), (λ e. cc))
    go (some h) = ((λ e. ap some (bytes_eq_sound h hash e)), (λ e. same e))
      where
        same : some h ≡ some hash → bytes_eq h hash ≡ true
        same e = rw (some_equal e) (bytes_eq_refl hash)

-- The digest in a buffer of 1024 bytes.
pub hash_decoded-some :
    (c : Crypto) (alg : ℤ) (cdh authdata : List ℕ)
    → hash_decoded c alg 1024 cdh (some authdata) ≡ digest c alg (authdata ++ cdh)
unfolding hash_decoded digest get_es256_hash get_es384_hash get_eddsa_hash
hash_decoded-some c alg cdh authdata = ground (arith, length-append authdata cdh)

pub verify_digest_iff :
    (c : Crypto) (alg : ℤ) (m dgst key sig : List ℕ)
    → digest c alg m ≡ some dgst
    → (verify_digest c alg dgst key sig ≡ fido_ok) ↔ (c.verify_sig alg dgst key sig ≡ true)
unfolding verify_digest digest
verify_digest_iff c alg m dgst key sig h = ground (arith, h)

-- ===== src/Cred/Checks.antt =====
-- src/cred.c: what the steps that both verifications share let through.
use fido2_manage.Prelude.{
  ℕ, ◌≡◌, ◌↔◌, ap, refl, sym, ◌∙◌, Bool, true, false, not, List, ◌++◌, Option, none, some, bit_and,
  ℤ, if◌then◌else◌, arith,
}
use fido2_manage.Err.{fido_ok, err_invalid_param}
use fido2_manage.Assert.{
  opt_true, Crypto, fido_check_flags, fido_check_rp_id, fido_get_signed_hash, hash_decoded,
}
use fido2_manage.Assert.Digest.{digest, hash_decoded-some}
use fido2_manage.Cred.{CredExt, Cred, check_cred_extensions, need, or_internal, checked}

-- A value that was there, and what followed.
pub record Given {A : Type 0} (o : Option A) (rest : A → ℤ) : Type 0 where
  pub value : A
  pub is : o ≡ some value
  pub after : rest value ≡ fido_ok

pub need-Given : {A : Type 0} (o : Option A) (rest : A → ℤ) → need o rest ≡ fido_ok → Given o rest
need-Given none rest h = absurd (ground (arith, h))
need-Given (some a) rest h = record { value = a; is = refl; after = h }

pub or_internal-Given :
    (o : Option (List ℕ)) (rest : List ℕ → ℤ) → or_internal o rest ≡ fido_ok → Given o rest
or_internal-Given none rest h = absurd (ground (arith, h))
or_internal-Given (some a) rest h = record { value = a; is = refl; after = h }

-- What the three checks let through.
pub record Passes (c : Crypto) (cred : Cred) (id : List ℕ) : Type 0 where
  pub rp : fido_check_rp_id c id cred.rp_id_hash ≡ true
  pub flags : fido_check_flags cred.flags opt_true cred.uv ≡ true
  pub extensions : check_cred_extensions cred.authdata_ext cred.ext ≡ true

pub checked-Passes :
    (c : Crypto) (cred : Cred) (id : List ℕ) (rest : ℤ)
    → checked c cred id rest ≡ fido_ok
    → Passes c cred id × (rest ≡ fido_ok)
checked-Passes c cred id rest h = go _ _ _ refl refl refl h
  where
    go :
        (a b e : Bool)
        → fido_check_rp_id c id cred.rp_id_hash ≡ a
        → fido_check_flags cred.flags opt_true cred.uv ≡ b
        → check_cred_extensions cred.authdata_ext cred.ext ≡ e
        → (if not a
            then err_invalid_param
            else if not b
            then err_invalid_param
            else if not e
            then err_invalid_param
            else rest)
          ≡ fido_ok
        → Passes c cred id × (rest ≡ fido_ok)
    go false b e p q r h = absurd (ground (arith, h))
    go true false e p q r h = absurd (ground (arith, h))
    go true true false p q r h = absurd (ground (arith, h))
    go true true true p q r h = (record { rp = p; flags = q; extensions = r }, h)

pub same_extensions :
    (a b : CredExt)
    → (check_cred_extensions a b ≡ true) ↔ (a ≡ record b { mask = bit_and b.mask 0xfffffffb })
unfolding check_cred_extensions
same_extensions a b = (
  λ h. ground (arith, h),
  λ e. ground (arith, ap (λ x. x.mask) e, ap (λ x. x.prot) e, ap (λ x. x.minpinlen) e),
)

-- The authenticator data that were decoded, and the digest.
pub record Decoded (c : Crypto) (alg : ℤ) (cdh cbor dgst : List ℕ) : Type 0 where
  pub authdata : List ℕ
  pub authdata_is : c.load_bytestring cbor ≡ some authdata
  pub digest_is : digest c alg (authdata ++ cdh) ≡ some dgst

pub signed_hash-Decoded :
    (c : Crypto) (alg : ℤ) (cdh cbor dgst : List ℕ)
    → fido_get_signed_hash c alg 1024 cdh cbor ≡ some dgst
    → Decoded c alg cdh cbor dgst
unfolding fido_get_signed_hash hash_decoded
signed_hash-Decoded c alg cdh cbor dgst h = go (c.load_bytestring cbor) refl h
  where
    go :
        (o : Option (List ℕ))
        → c.load_bytestring cbor ≡ o
        → hash_decoded c alg 1024 cdh o ≡ some dgst
        → Decoded c alg cdh cbor dgst
    go none e h = cc
    go (some authdata) e h = record {
      authdata = authdata;
      authdata_is = e;
      digest_is = sym (hash_decoded-some c alg cdh authdata) ∙ h;
    }

pub need-some :
    {A : Type 0} (o : Option A) (a : A) (rest : A → ℤ) → o ≡ some a → need o rest ≡ rest a
need-some o a rest e = ap (λ x. need x rest) e

pub Passes-checked :
    (c : Crypto) (cred : Cred) (id : List ℕ) (rest : ℤ)
    → Passes c cred id
    → checked c cred id rest ≡ rest
Passes-checked c cred id rest h = rw (h.rp, h.flags, h.extensions) refl

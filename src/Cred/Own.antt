-- ===== src/Cred/Own.antt =====
-- src/cred.c: which credentials are accepted without a certificate.
use fido2_manage.Prelude.{
  ℕ, ◌≡◌, ◌≢◌, ◌↔◌, ap, refl, ◌∙◌, Bool, true, false, ◌||◌, List, ◌∷◌, ◌++◌, Option, none, some,
  bytes_eq, bytes_eq_sound, bit_and, ℤ, eqb_ℤ, if◌then◌else◌, arith, Bool-cases, inl, inr,
}
use fido2_manage.Err.{fido_ok, err_invalid_sig, err_unsupported_option}
use fido2_manage.Assert.{
  opt_true, Crypto, cose_es256, cose_es384, cose_rs256, cose_eddsa, fido_get_signed_hash,
}
use fido2_manage.Assert.Digest.{digest, check_flags_iff, check_rp_id_iff, hash_decoded-some}
use fido2_manage.Cred.{
  Cred, packed, fido_u2f, get_signed_hash_u2f, need_none, self_attested, verify_own,
  fido_cred_verify_self,
}
use fido2_manage.Cred.Checks.{
  need-Given, or_internal-Given, Passes, checked-Passes, same_extensions, signed_hash-Decoded,
  need-some, Passes-checked,
}

-- The digest that the credential's own key signs.
pub data SelfHash (c : Crypto) (cred : Cred) (cdh cbor id : List ℕ) : List ℕ → List ℕ → Type 0 where
  packed_hash :
      (authdata dgst : List ℕ)
      → c.load_bytestring cbor ≡ some authdata
      → digest c cred.type (authdata ++ cdh) ≡ some dgst
      → SelfHash c cred cdh cbor id packed dgst
  u2f_hash :
      (dgst : List ℕ)
      → c.sha256 (0 ∷ (cred.rp_id_hash ++ cdh ++ id ++ (4 ∷ (cred.x ++ cred.y)))) ≡ some dgst
      → SelfHash c cred cdh cbor id fido_u2f dgst

abbrev pub own_type : ℤ → Bool
own_type alg =
    eqb_ℤ alg cose_es256 || eqb_ℤ alg cose_es384 || eqb_ℤ alg cose_rs256 || eqb_ℤ alg cose_eddsa

-- A credential without certificates that is of the relying party, was made with the user's presence,
-- and with verification where it was asked for, has the extensions that were asked for (but
-- largeBlobKey), and is signed by its own key.
pub record IsSelfAttested (c : Crypto) (cred : Cred) : Type 0 where
  pub cdh : List ℕ
  pub cbor : List ℕ
  pub sig : List ℕ
  pub fmt : List ℕ
  pub id : List ℕ
  pub rp_id : List ℕ
  pub dgst : List ℕ
  pub cdh_is : cred.cdh ≡ some cdh
  pub cbor_is : cred.authdata_cbor ≡ some cbor
  pub no_x5c : cred.x5c ≡ none
  pub sig_is : cred.sig ≡ some sig
  pub fmt_is : cred.fmt ≡ some fmt
  pub id_is : cred.id ≡ some id
  pub rp_id_is : cred.rp_id ≡ some rp_id
  pub rp : c.sha256 rp_id ≡ some cred.rp_id_hash
  pub present : bit_and cred.flags 0x01 ≢ 0
  pub verified : cred.uv ≡ opt_true → bit_and cred.flags 0x04 ≢ 0
  pub extensions : cred.authdata_ext ≡ record cred.ext { mask = bit_and cred.ext.mask 0xfffffffb }
  pub signs : SelfHash c cred cdh cbor id fmt dgst
  pub own : own_type cred.type ≡ true
  pub accepted : c.verify_sig cred.type dgst cred.pubkey sig ≡ true

need_none-ok :
    {A : Type 0} (o : Option A) (rest : ℤ)
    → need_none o rest ≡ fido_ok
    → (o ≡ none) × (rest ≡ fido_ok)
need_none-ok none rest h = (refl, h)
need_none-ok (some a) rest h = absurd (ground (arith, h))

need_none-skip : {A : Type 0} (o : Option A) (rest : ℤ) → o ≡ none → need_none o rest ≡ rest
need_none-skip o rest e = ap (λ x. need_none x rest) e

record SelfDigested (c : Crypto) (cred : Cred) (cdh cbor id fmt : List ℕ) (rest : List ℕ → ℤ)
    : Type 0 where
  dgst : List ℕ
  signs : SelfHash c cred cdh cbor id fmt dgst
  after : rest dgst ≡ fido_ok

self_attested-SelfDigested :
    (c : Crypto) (cred : Cred) (fmt cdh cbor id : List ℕ) (rest : List ℕ → ℤ)
    → self_attested c cred fmt cdh cbor id rest ≡ fido_ok
    → SelfDigested c cred cdh cbor id fmt rest
unfolding get_signed_hash_u2f
self_attested-SelfDigested c cred fmt cdh cbor id rest h = elim (Bool-cases (bytes_eq fmt packed)) [
  | inl a ↦
      let g = or_internal-Given (fido_get_signed_hash c cred.type 1024 cdh cbor) rest (rw a at h) in
      let d = signed_hash-Decoded c cred.type cdh cbor g.value g.is in
      rw (bytes_eq_sound fmt packed a) (record {
        dgst = g.value;
        signs = packed_hash d.authdata g.value d.authdata_is d.digest_is;
        after = g.after;
      })
  | inr a ↦ elim (Bool-cases (bytes_eq fmt fido_u2f)) [
    | inl b ↦
        let g =
          or_internal-Given (get_signed_hash_u2f c cred.rp_id_hash cdh id cred.x cred.y) rest
            (rw (a, b) at h) in
        rw (bytes_eq_sound fmt fido_u2f b)
          (record { dgst = g.value; signs = u2f_hash g.value g.is; after = g.after })
    | inr b ↦ absurd (ground (arith, rw (a, b) at h))
  ]
]

verify_own-ok :
    (c : Crypto) (cred : Cred) (sig dgst : List ℕ)
    → (verify_own c cred sig dgst ≡ fido_ok)
      ↔ ((own_type cred.type ≡ true) × (c.verify_sig cred.type dgst cred.pubkey sig ≡ true))
verify_own-ok c cred sig dgst =
    go (own_type cred.type) (c.verify_sig cred.type dgst cred.pubkey sig)
  where
    go :
        (a b : Bool)
        → ((if a then (if b then fido_ok else err_invalid_sig) else err_unsupported_option)
            ≡ fido_ok)
          ↔ ((a ≡ true) × (b ≡ true))
    go true true = ((λ h. (refl, refl)), (λ h. refl))
    go true false = ((λ h. absurd (ground (arith, h))), (λ h. cc))
    go false b = ((λ h. absurd (ground (arith, h))), (λ h. cc))

SelfHash-self_attested :
    (c : Crypto) (cred : Cred) (cdh cbor id fmt dgst : List ℕ) (rest : List ℕ → ℤ)
    → SelfHash c cred cdh cbor id fmt dgst
    → self_attested c cred fmt cdh cbor id rest ≡ rest dgst
unfolding fido_get_signed_hash get_signed_hash_u2f
SelfHash-self_attested c cred cdh cbor id fmt dgst rest (packed_hash authdata d e1 e2) =
    rw (e1, hash_decoded-some c cred.type cdh authdata, e2) refl
SelfHash-self_attested c cred cdh cbor id fmt dgst rest (u2f_hash d e) = rw e refl

self-IsSelfAttested :
    (c : Crypto) (cred : Cred) → fido_cred_verify_self c cred ≡ fido_ok → IsSelfAttested c cred
unfolding fido_cred_verify_self
self-IsSelfAttested c cred h =
    let cdh = need-Given cred.cdh _ h in
    let cbor = need-Given cred.authdata_cbor _ cdh.after in
    let (no_x5c, bare) = need_none-ok cred.x5c _ cbor.after in
    let sig = need-Given cred.sig _ bare in
    let fmt = need-Given cred.fmt _ sig.after in
    let id = need-Given cred.id _ fmt.after in
    let rp_id = need-Given cred.rp_id _ id.after in
    let (passes, signed) = checked-Passes c cred rp_id.value _ rp_id.after in
    let hash = self_attested-SelfDigested c cred fmt.value cdh.value cbor.value id.value _ signed in
    let by = (verify_own-ok c cred sig.value hash.dgst).0 hash.after in
    let flags = (check_flags_iff cred.flags opt_true cred.uv).0 passes.flags in
    record {
      cdh = cdh.value;
      cbor = cbor.value;
      sig = sig.value;
      fmt = fmt.value;
      id = id.value;
      rp_id = rp_id.value;
      dgst = hash.dgst;
      cdh_is = cdh.is;
      cbor_is = cbor.is;
      no_x5c = no_x5c;
      sig_is = sig.is;
      fmt_is = fmt.is;
      id_is = id.is;
      rp_id_is = rp_id.is;
      rp = (check_rp_id_iff c rp_id.value cred.rp_id_hash).0 passes.rp;
      present = flags.0 refl;
      verified = flags.1;
      extensions = (same_extensions cred.authdata_ext cred.ext).0 passes.extensions;
      signs = hash.signs;
      own = by.0;
      accepted = by.1;
    }

-- fido_cred_verify_self gives FIDO_OK exactly for the credentials without certificates that are to be
-- accepted: everything that is needed is there; the authenticator data name the relying party, and
-- report the user's presence, and verification where it was asked for; the extensions are those asked
-- for, but for largeBlobKey; and the credential's own key, of a type that the library knows, accepts
-- the signature of the digest that the format calls for.
pub cred_verify_self-exact :
    (c : Crypto) (cred : Cred) → (fido_cred_verify_self c cred ≡ fido_ok) ↔ IsSelfAttested c cred
unfolding fido_cred_verify_self
cred_verify_self-exact c cred = (self-IsSelfAttested c cred, complete)
  where
    complete : IsSelfAttested c cred → fido_cred_verify_self c cred ≡ fido_ok
    complete h =
        let passes : Passes c cred h.rp_id = record {
          rp = (check_rp_id_iff c h.rp_id cred.rp_id_hash).1 h.rp;
          flags = (check_flags_iff cred.flags opt_true cred.uv).1 ((λ e. h.present), h.verified);
          extensions = (same_extensions cred.authdata_ext cred.ext).1 h.extensions;
        } in
        need-some cred.cdh h.cdh _ h.cdh_is
        ∙ need-some cred.authdata_cbor h.cbor _ h.cbor_is
        ∙ need_none-skip cred.x5c _ h.no_x5c
        ∙ need-some cred.sig h.sig _ h.sig_is
        ∙ need-some cred.fmt h.fmt _ h.fmt_is
        ∙ need-some cred.id h.id _ h.id_is
        ∙ need-some cred.rp_id h.rp_id _ h.rp_id_is
        ∙ Passes-checked c cred h.rp_id _ passes
        ∙ SelfHash-self_attested c cred h.cdh h.cbor h.id h.fmt h.dgst _ h.signs
        ∙ (verify_own-ok c cred h.sig h.dgst).1 (h.own, h.accepted)

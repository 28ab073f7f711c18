-- ===== src/Cred/Exact.antt =====
-- src/cred.c: which credentials are accepted.
use fido2_manage.Prelude.{
  ℕ, ◌^◌, ◌-◌, ◌≤◌, ◌≡◌, ◌≢◌, ◌↔◌, ap, refl, ◌∙◌, Bool, true, false, ◌&&◌, List, [], ◌∷◌, ◌++◌,
  Option, none, some, length, ltb, bytes_eq, bytes_eq_sound, bit_and, ℤ, if◌then◌else◌, arith,
  Bool-cases, inl, inr,
}
use fido2_manage.Err.{fido_ok, err_invalid_sig}
use fido2_manage.Assert.{opt_true, fido_get_signed_hash}
use fido2_manage.Assert.Digest.{digest, check_flags_iff, check_rp_id_iff, hash_decoded-some}
use fido2_manage.Cred.Checks.{
  need-Given, or_internal-Given, Passes, checked-Passes, same_extensions, signed_hash-Decoded,
  need-some, Passes-checked,
}
use fido2_manage.Cred.{
  Cred, Attester, packed, fido_u2f, tpm, get_signed_hash_u2f, known_alg, with_cert_key,
  verify_attstmt, attestation_alg, attested, fido_cred_verify, signed_hash_tpm,
}

-- The digest that is signed, by the format of the attestation: of the authenticator data and the
-- client data hash; of what a U2F registration signs; or the one that tpm.c makes.
pub data SignedHash (v : Attester) (cred : Cred) (cdh cbor id : List ℕ)
    : List ℕ → List ℕ → Type 0 where
  packed_hash :
      (authdata dgst : List ℕ)
      → v.crypto.load_bytestring cbor ≡ some authdata
      → digest v.crypto (attestation_alg cred) (authdata ++ cdh) ≡ some dgst
      → SignedHash v cred cdh cbor id packed dgst
  u2f_hash :
      (dgst : List ℕ)
      → v.crypto.sha256 (0 ∷ (cred.rp_id_hash ++ cdh ++ id ++ (4 ∷ (cred.x ++ cred.y)))) ≡ some dgst
      → SignedHash v cred cdh cbor id fido_u2f dgst
  tpm_hash :
      (dgst : List ℕ)
      → signed_hash_tpm v cred cdh ≡ some dgst
      → SignedHash v cred cdh cbor id tpm dgst

-- A credential of the relying party, made with the user's presence, and with verification where it
-- was asked for, with the extensions that were asked for (but largeBlobKey), and signed by the key of
-- the first certificate.
pub record IsAttested (v : Attester) (cred : Cred) : Type 0 where
  pub cdh : List ℕ
  pub cbor : List ℕ
  pub cert : List ℕ
  pub certs : List (List ℕ)
  pub sig : List ℕ
  pub fmt : List ℕ
  pub id : List ℕ
  pub rp_id : List ℕ
  pub key : List ℕ
  pub dgst : List ℕ
  pub cdh_is : cred.cdh ≡ some cdh
  pub cbor_is : cred.authdata_cbor ≡ some cbor
  pub x5c_is : cred.x5c ≡ some (cert ∷ certs)
  pub sig_is : cred.sig ≡ some sig
  pub fmt_is : cred.fmt ≡ some fmt
  pub id_is : cred.id ≡ some id
  pub rp_id_is : cred.rp_id ≡ some rp_id
  pub rp : v.crypto.sha256 rp_id ≡ some cred.rp_id_hash
  pub present : bit_and cred.flags 0x01 ≢ 0
  pub verified : cred.uv ≡ opt_true → bit_and cred.flags 0x04 ≢ 0
  pub extensions : cred.authdata_ext ≡ record cred.ext { mask = bit_and cred.ext.mask 0xfffffffb }
  pub signs : SignedHash v cred cdh cbor id fmt dgst
  pub cert_size : length cert ≤ 2 ^ 31 - 1
  pub key_is : v.cert_key cert ≡ some key
  pub known : known_alg cred.alg ≡ true
  pub accepted : v.verify_cert_sig cred.alg dgst key sig ≡ true

-- A digest, and what followed it.
pub record Digested (v : Attester) (cred : Cred) (cdh cbor id fmt : List ℕ) (rest : List ℕ → ℤ)
    : Type 0 where
  pub dgst : List ℕ
  pub signs : SignedHash v cred cdh cbor id fmt dgst
  pub after : rest dgst ≡ fido_ok

attested-Digested :
    (v : Attester) (cred : Cred) (fmt cdh cbor id : List ℕ) (rest : List ℕ → ℤ)
    → attested v cred fmt cdh cbor id rest ≡ fido_ok
    → Digested v cred cdh cbor id fmt rest
unfolding get_signed_hash_u2f
attested-Digested v cred fmt cdh cbor id rest h = elim (Bool-cases (bytes_eq fmt packed)) [
  | inl a ↦
      let g =
        or_internal-Given (fido_get_signed_hash v.crypto (attestation_alg cred) 1024 cdh cbor) rest
          (rw a at h) in
      let d = signed_hash-Decoded v.crypto (attestation_alg cred) cdh cbor g.value g.is in
      rw (bytes_eq_sound fmt packed a) (record {
        dgst = g.value;
        signs = packed_hash d.authdata g.value d.authdata_is d.digest_is;
        after = g.after;
      })
  | inr a ↦ elim (Bool-cases (bytes_eq fmt fido_u2f)) [
    | inl b ↦
        let g =
          or_internal-Given (get_signed_hash_u2f v.crypto cred.rp_id_hash cdh id cred.x cred.y) rest
            (rw (a, b) at h) in
        rw (bytes_eq_sound fmt fido_u2f b)
          (record { dgst = g.value; signs = u2f_hash g.value g.is; after = g.after })
    | inr b ↦ elim (Bool-cases (bytes_eq fmt tpm)) [
      | inl e ↦
          let g = or_internal-Given (signed_hash_tpm v cred cdh) rest (rw (a, b, e) at h) in
          rw (bytes_eq_sound fmt tpm e)
            (record { dgst = g.value; signs = tpm_hash g.value g.is; after = g.after })
      | inr e ↦ absurd (ground (arith, rw (a, b, e) at h))
    ]
  ]
]

-- The certificate whose key accepts.
pub record Accepts (v : Attester) (dgst : List ℕ) (cred : Cred) (x5c : List (List ℕ)) (sig : List ℕ)
    : Type 0 where
  pub cert : List ℕ
  pub certs : List (List ℕ)
  pub key : List ℕ
  pub x5c_is : x5c ≡ cert ∷ certs
  pub cert_size : length cert ≤ 2 ^ 31 - 1
  pub key_is : v.cert_key cert ≡ some key
  pub known : known_alg cred.alg ≡ true
  pub accepted : v.verify_cert_sig cred.alg dgst key sig ≡ true

both : (a b : Bool) → (a && b) ≡ true → (a ≡ true) × (b ≡ true)
both true b h = (refl, h)
both false b h = cc

verify_attstmt-Accepts :
    (v : Attester) (dgst : List ℕ) (cred : Cred) (x5c : List (List ℕ)) (sig : List ℕ)
    → verify_attstmt v dgst cred x5c sig ≡ true
    → Accepts v dgst cred x5c sig
unfolding verify_attstmt
verify_attstmt-Accepts v dgst cred [] sig h = cc
verify_attstmt-Accepts v dgst cred (cert ∷ certs) sig h =
    elim (Bool-cases (ltb (2 ^ 31 - 1) (length cert))) [
      | inl wide ↦ absurd (ground (arith, rw wide at h))
      | inr fits ↦ go (ground (arith, fits)) (v.cert_key cert) refl (rw fits at h)
    ]
  where
    go :
        length cert ≤ 2 ^ 31 - 1
        → (o : Option (List ℕ)) → v.cert_key cert ≡ o
        → with_cert_key v dgst cred sig o ≡ true
        → Accepts v dgst cred (cert ∷ certs) sig
    go size none e h = cc
    go size (some key) e h =
        let (known, accepted) =
          both (known_alg cred.alg) (v.verify_cert_sig cred.alg dgst key sig) h in
        record {
          cert = cert;
          certs = certs;
          key = key;
          x5c_is = refl;
          cert_size = size;
          key_is = e;
          known = known;
          accepted = accepted;
        }

accept-ok : (b : Bool) → (if b then fido_ok else err_invalid_sig) ≡ fido_ok → b ≡ true
accept-ok true h = refl
accept-ok false h = absurd (ground (arith, h))

verify-IsAttested :
    (v : Attester) (cred : Cred) → fido_cred_verify v cred ≡ fido_ok → IsAttested v cred
unfolding fido_cred_verify
verify-IsAttested v cred h =
    let cdh = need-Given cred.cdh _ h in
    let cbor = need-Given cred.authdata_cbor _ cdh.after in
    let x5c = need-Given cred.x5c _ cbor.after in
    let sig = need-Given cred.sig _ x5c.after in
    let fmt = need-Given cred.fmt _ sig.after in
    let id = need-Given cred.id _ fmt.after in
    let rp_id = need-Given cred.rp_id _ id.after in
    let (passes, signed) = checked-Passes v.crypto cred rp_id.value _ rp_id.after in
    let hash = attested-Digested v cred fmt.value cdh.value cbor.value id.value _ signed in
    let by = verify_attstmt-Accepts v hash.dgst cred x5c.value sig.value (accept-ok _ hash.after) in
    let flags = (check_flags_iff cred.flags opt_true cred.uv).0 passes.flags in
    record {
      cdh = cdh.value;
      cbor = cbor.value;
      cert = by.cert;
      certs = by.certs;
      sig = sig.value;
      fmt = fmt.value;
      id = id.value;
      rp_id = rp_id.value;
      key = by.key;
      dgst = hash.dgst;
      cdh_is = cdh.is;
      cbor_is = cbor.is;
      x5c_is = x5c.is ∙ ap some by.x5c_is;
      sig_is = sig.is;
      fmt_is = fmt.is;
      id_is = id.is;
      rp_id_is = rp_id.is;
      rp = (check_rp_id_iff v.crypto rp_id.value cred.rp_id_hash).0 passes.rp;
      present = flags.0 refl;
      verified = flags.1;
      extensions = (same_extensions cred.authdata_ext cred.ext).0 passes.extensions;
      signs = hash.signs;
      cert_size = by.cert_size;
      key_is = by.key_is;
      known = by.known;
      accepted = by.accepted;
    }

SignedHash-attested :
    (v : Attester) (cred : Cred) (cdh cbor id fmt dgst : List ℕ) (rest : List ℕ → ℤ)
    → SignedHash v cred cdh cbor id fmt dgst
    → attested v cred fmt cdh cbor id rest ≡ rest dgst
unfolding fido_get_signed_hash get_signed_hash_u2f
SignedHash-attested v cred cdh cbor id fmt dgst rest (packed_hash authdata d e1 e2) =
    rw (e1, hash_decoded-some v.crypto (attestation_alg cred) cdh authdata, e2) refl
SignedHash-attested v cred cdh cbor id fmt dgst rest (u2f_hash d e) = rw e refl
SignedHash-attested v cred cdh cbor id fmt dgst rest (tpm_hash d e) = rw e refl

-- fido_cred_verify gives FIDO_OK exactly for the credentials that are to be accepted: everything that
-- is needed is there; the authenticator data name the relying party, and report the user's presence,
-- and verification where it was asked for; the extensions are those asked for, but for largeBlobKey;
-- and the key of the first certificate accepts the signature of the digest that the format calls for.
pub cred_verify-exact :
    (v : Attester) (cred : Cred) → (fido_cred_verify v cred ≡ fido_ok) ↔ IsAttested v cred
unfolding fido_cred_verify verify_attstmt
cred_verify-exact v cred = (verify-IsAttested v cred, complete)
  where
    complete : IsAttested v cred → fido_cred_verify v cred ≡ fido_ok
    complete h =
        let rp = (check_rp_id_iff v.crypto h.rp_id cred.rp_id_hash).1 h.rp in
        let flags =
          (check_flags_iff cred.flags opt_true cred.uv).1 ((λ e. h.present), h.verified) in
        let ext = (same_extensions cred.authdata_ext cred.ext).1 h.extensions in
        let fits : ltb (2 ^ 31 - 1) (length h.cert) ≡ false = ground (arith, h.cert_size) in
        let passes : Passes v.crypto cred h.rp_id = record {
          rp = rp;
          flags = flags;
          extensions = ext;
        } in
        let accept : verify_attstmt v h.dgst cred (h.cert ∷ h.certs) h.sig ≡ true =
          rw (fits, h.key_is, h.known, h.accepted) refl in
        need-some cred.cdh h.cdh _ h.cdh_is
        ∙ need-some cred.authdata_cbor h.cbor _ h.cbor_is
        ∙ need-some cred.x5c (h.cert ∷ h.certs) _ h.x5c_is
        ∙ need-some cred.sig h.sig _ h.sig_is
        ∙ need-some cred.fmt h.fmt _ h.fmt_is
        ∙ need-some cred.id h.id _ h.id_is
        ∙ need-some cred.rp_id h.rp_id _ h.rp_id_is
        ∙ Passes-checked v.crypto cred h.rp_id _ passes
        ∙ SignedHash-attested v cred h.cdh h.cbor h.id h.fmt h.dgst _ h.signs
        ∙ ap (λ b. if b then fido_ok else err_invalid_sig) accept

-- ===== src/Assert/Exact.antt =====
-- src/assert.c: `fido_assert_verify` against a description of the assertions that it is to accept.
use fido2_manage.Prelude.{
  leb, ◌<◌, Bool-cases, inl, inr, false, ℕ, ◌≡◌, ◌≢◌, subst, Option-cases, ◌↔◌, refl, true, List,
  ◌++◌, Option, none, some, get_elem?, bit_and, ◌==◌, ==_iff, ℤ, inl, inr, arith,
}
use fido2_manage.Err.{fido_ok, err_internal}
use fido2_manage.Blob.{Blob}
use fido2_manage.Assert.{
  Assert, Stmt, Crypto, opt_true, fido_check_flags, check_extensions, hash_decoded,
  fido_get_signed_hash, fido_check_rp_id, verify_digest, with_digest, verify_stmt, with_everything,
  with_stmt, fido_assert_verify,
}
use fido2_manage.Assert.Digest.{
  digest, check_flags_iff, check_rp_id_iff, hash_decoded-some, verify_digest_iff,
}

-- An assertion that is to be accepted: a statement was received; the user was present and verified
-- where this was asked for; the extensions are those asked for; the authenticator data name the
-- relying party; and the key accepts the signature of these data followed by the hash of the
-- client data.
pub record IsGenuine (c : Crypto) (a : Assert) (idx : ℕ) (alg : ℤ) (pk : Option (List ℕ))
    : Type 0 where
  pub st : Stmt
  pub key : List ℕ
  pub cdh : List ℕ
  pub id : List ℕ
  pub cbor : List ℕ
  pub sig : List ℕ
  pub authdata : List ℕ
  pub dgst : List ℕ
  pub received : idx < a.stmt_len
  pub stmt_is : get_elem? a.stmt idx ≡ some st
  pub key_is : pk ≡ some key
  pub cdh_is : a.cdh ≡ some cdh
  pub id_is : a.rp_id ≡ some id
  pub cbor_is : st.authdata_cbor ≡ some cbor
  pub sig_is : st.sig ≡ some sig
  pub present : a.up ≡ opt_true → bit_and st.flags 0x01 ≢ 0
  pub verified : a.uv ≡ opt_true → bit_and st.flags 0x04 ≢ 0
  pub extensions : st.authdata_ext_mask ≡ bit_and a.ext_mask 0xfffffffb
  pub rp : c.sha256 id ≡ some st.rp_id_hash
  pub authdata_is : c.load_bytestring cbor ≡ some authdata
  pub digest_is : digest c alg (authdata ++ cdh) ≡ some dgst
  pub accepted : c.verify_sig alg dgst key sig ≡ true

-- The bytes that were signed, if the last two steps succeed.
record Signed (c : Crypto) (alg : ℤ) (cdh cbor key sig : List ℕ) : Type 0 where
  authdata : List ℕ
  dgst : List ℕ
  authdata_is : c.load_bytestring cbor ≡ some authdata
  digest_is : digest c alg (authdata ++ cdh) ≡ some dgst
  accepted : c.verify_sig alg dgst key sig ≡ true

with_digest-Signed :
    (c : Crypto) (alg : ℤ) (cdh cbor key sig : List ℕ)
    → with_digest c alg key sig (fido_get_signed_hash c alg 1024 cdh cbor) ≡ fido_ok
    → Signed c alg cdh cbor key sig
unfolding fido_get_signed_hash hash_decoded
with_digest-Signed c alg cdh cbor key sig h = elim (Option-cases (c.load_bytestring cbor)) [
  | inl e ↦
      let bad : err_internal ≡ fido_ok =
        subst (λ o. with_digest c alg key sig (hash_decoded c alg 1024 cdh o) ≡ fido_ok) e h in
      absurd (ground (arith, bad))
  | inr (authdata, e) ↦
      let h1 : with_digest c alg key sig (hash_decoded c alg 1024 cdh (some authdata)) ≡ fido_ok =
        subst (λ o. with_digest c alg key sig (hash_decoded c alg 1024 cdh o) ≡ fido_ok) e h in
      let h2 : with_digest c alg key sig (digest c alg (authdata ++ cdh)) ≡ fido_ok =
        subst (λ o. with_digest c alg key sig o ≡ fido_ok) (hash_decoded-some c alg cdh authdata)
          h1 in
      elim (Option-cases (digest c alg (authdata ++ cdh))) [
        | inl no_digest ↦
            let bad : err_internal ≡ fido_ok =
              subst (λ o. with_digest c alg key sig o ≡ fido_ok) no_digest h2 in
            absurd (ground (arith, bad))
        | inr (dgst, is) ↦
            let h3 : verify_digest c alg dgst key sig ≡ fido_ok =
              subst (λ o. with_digest c alg key sig o ≡ fido_ok) is h2 in
            record {
              authdata = authdata;
              dgst = dgst;
              authdata_is = e;
              digest_is = is;
              accepted = (verify_digest_iff c alg (authdata ++ cdh) dgst key sig is).0 h3;
            }
      ]
]

verify_stmt-ok :
    (c : Crypto) (a : Assert) (alg : ℤ) (key : List ℕ) (st : Stmt) (cdh id cbor sig : List ℕ)
    → verify_stmt c a alg key st cdh id cbor sig ≡ fido_ok
    → (fido_check_flags st.flags a.up a.uv ≡ true)
      × (check_extensions st.authdata_ext_mask a.ext_mask ≡ true)
      × (fido_check_rp_id c id st.rp_id_hash ≡ true)
      × (with_digest c alg key sig (fido_get_signed_hash c alg 1024 cdh cbor) ≡ fido_ok)
unfolding verify_stmt
verify_stmt-ok c a alg key st cdh id cbor sig h = ground (arith, h)

-- What the receipt of everything needed amounts to.
record Given (a : Assert) (st : Stmt) (cdh id cbor sig : List ℕ) : Type 0 where
  cdh_is : a.cdh ≡ some cdh
  id_is : a.rp_id ≡ some id
  cbor_is : st.authdata_cbor ≡ some cbor
  sig_is : st.sig ≡ some sig

verify_stmt-IsGenuine :
    (c : Crypto) (a : Assert) (idx : ℕ) (alg : ℤ) (key : List ℕ) (st : Stmt)
    (cdh id cbor sig : List ℕ)
    → idx < a.stmt_len
    → get_elem? a.stmt idx ≡ some st
    → Given a st cdh id cbor sig
    → verify_stmt c a alg key st cdh id cbor sig ≡ fido_ok
    → IsGenuine c a idx alg (some key)
unfolding check_extensions
verify_stmt-IsGenuine c a idx alg key st cdh id cbor sig received stmt_is given h =
    let (flags, ext, rp, last) = verify_stmt-ok c a alg key st cdh id cbor sig h in
    let signed = with_digest-Signed c alg cdh cbor key sig last in
    let asked = (check_flags_iff st.flags a.up a.uv).0 flags in
    record {
      st = st;
      key = key;
      cdh = cdh;
      id = id;
      cbor = cbor;
      sig = sig;
      authdata = signed.authdata;
      dgst = signed.dgst;
      received = received;
      stmt_is = stmt_is;
      key_is = refl;
      cdh_is = given.cdh_is;
      id_is = given.id_is;
      cbor_is = given.cbor_is;
      sig_is = given.sig_is;
      present = asked.0;
      verified = asked.1;
      extensions = (==_iff _ _).0 ext;
      rp = (check_rp_id_iff c id st.rp_id_hash).0 rp;
      authdata_is = signed.authdata_is;
      digest_is = signed.digest_is;
      accepted = signed.accepted;
    }

everything-IsGenuine :
    (c : Crypto) (a : Assert) (idx : ℕ) (alg : ℤ) (key : List ℕ) (st : Stmt) (cdh : Blob)
    (id : Option (List ℕ)) (cbor sig : Blob)
    → idx < a.stmt_len
    → get_elem? a.stmt idx ≡ some st
    → a.cdh ≡ cdh
    → a.rp_id ≡ id
    → st.authdata_cbor ≡ cbor
    → st.sig ≡ sig
    → with_everything c a alg key st cdh id cbor sig ≡ fido_ok
    → IsGenuine c a idx alg (some key)
everything-IsGenuine c a idx alg key st (some cdh) (some id) (some cbor) (some sig) l i e1 e2 e3 e4
      h =
    verify_stmt-IsGenuine c a idx alg key st cdh id cbor sig l i
      (record { cdh_is = e1; id_is = e2; cbor_is = e3; sig_is = e4 }) h
everything-IsGenuine c a idx alg key st (some cdh) (some id) (some cbor) none l i e1 e2 e3 e4 h =
    absurd (ground (arith, h))
everything-IsGenuine c a idx alg key st (some cdh) (some id) none sig l i e1 e2 e3 e4 h =
    absurd (ground (arith, h))
everything-IsGenuine c a idx alg key st (some cdh) none cbor sig l i e1 e2 e3 e4 h =
    absurd (ground (arith, h))
everything-IsGenuine c a idx alg key st none id cbor sig l i e1 e2 e3 e4 h =
    absurd (ground (arith, h))

verify_sound :
    (c : Crypto) (a : Assert) (idx : ℕ) (alg : ℤ) (pk : Option (List ℕ)) (o : Option Stmt)
    → idx < a.stmt_len
    → get_elem? a.stmt idx ≡ o
    → with_stmt c a alg pk o ≡ fido_ok
    → IsGenuine c a idx alg pk
verify_sound c a idx alg pk none l i h = absurd (ground (arith, h))
verify_sound c a idx alg none (some st) l i h = absurd (ground (arith, h))
verify_sound c a idx alg (some key) (some st) l i h =
    everything-IsGenuine c a idx alg key st a.cdh a.rp_id st.authdata_cbor st.sig l i refl refl refl
      refl h

verify_complete :
    (c : Crypto) (a : Assert) (idx : ℕ) (alg : ℤ) (pk : Option (List ℕ))
    → IsGenuine c a idx alg pk
    → fido_assert_verify c a idx alg pk ≡ fido_ok
unfolding fido_assert_verify verify_stmt check_extensions fido_get_signed_hash
verify_complete c a idx alg pk g =
    let st = g.st in
    let received : leb a.stmt_len idx ≡ false = ground (arith, g.received) in
    let flags : fido_check_flags st.flags a.up a.uv ≡ true =
      (check_flags_iff st.flags a.up a.uv).1 (g.present, g.verified) in
    let ext : (st.authdata_ext_mask == bit_and a.ext_mask 0xfffffffb) ≡ true =
      (==_iff _ _).1 g.extensions in
    let rp : fido_check_rp_id c g.id st.rp_id_hash ≡ true =
      (check_rp_id_iff c g.id st.rp_id_hash).1 g.rp in
    let sig =
      (verify_digest_iff c alg (g.authdata ++ g.cdh) g.dgst g.key g.sig g.digest_is).1 g.accepted in
    simp (
      received,
      g.stmt_is,
      g.key_is,
      g.cdh_is,
      g.id_is,
      g.cbor_is,
      g.sig_is,
      flags,
      ext,
      rp,
      g.authdata_is,
      hash_decoded-some c alg g.cdh g.authdata,
      g.digest_is,
      sig,
    )

-- `fido_assert_verify` gives FIDO_OK exactly for the assertions that are to be accepted.
pub verify-exact :
    (c : Crypto) (a : Assert) (idx : ℕ) (alg : ℤ) (pk : Option (List ℕ))
    → (fido_assert_verify c a idx alg pk ≡ fido_ok) ↔ IsGenuine c a idx alg pk
unfolding fido_assert_verify
verify-exact c a idx alg pk = (sound, verify_complete c a idx alg pk)
  where
    sound : fido_assert_verify c a idx alg pk ≡ fido_ok → IsGenuine c a idx alg pk
    sound h = elim (Bool-cases (leb a.stmt_len idx)) [
      | inl out ↦ absurd (ground (arith, rw out at h))
      | inr there ↦
          verify_sound c a idx alg pk (get_elem? a.stmt idx) (ground (arith, there)) refl
            (rw there at h)
    ]

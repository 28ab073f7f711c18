-- ===== src/U2f/Single.antt =====
-- src/u2f.c: one allowed credential, looked up and asked to sign.
use fido2_manage.Prelude.{
  ℕ, ◌<◌, ◌≡◌, refl, sym, Bool, true, false, List, [], ◌∷◌, Option, none, some, length, get_elem?,
  set, Bool-cases, inl, inr, ℤ, eqb_ℤ, map-set, get_elem?-none,
}
use fido2_manage.Platform.{World, ok}
use fido2_manage.Err.{fido_ok, err_internal, err_user_presence_required, err_credential_excluded}
use fido2_manage.Try.{Ret, val, err, OnRet}
use fido2_manage.Ends.{Ends, return-Ends, continue-Ends, outcome-Ends}
use fido2_manage.Device.{Dev}
use fido2_manage.Blob.{Blob, fido_blob_set}
use fido2_manage.Assert.{Assert, Stmt}
use fido2_manage.Assert.Stmts.{fido_assert_set_authdata, fido_assert_set_sig}
use fido2_manage.Assert.Names.{ids, HasNames, IsSetter, set_authdata-IsSetter, set_sig-IsSetter}
use fido2_manage.U2f.{Calls, do_auth}
use fido2_manage.U2f.Known.{
  Answers, Looked, Signs, signed_with, known_status, unknown_status, key_lookup-Looked,
}
use fido2_manage.U2f.Wait.{IsPlain, IsCallCode, do_auth-Ends}
use fido2_manage.U2f.Authenticate.{
  is_false, signed, then_sig, set_signed, put_id, with_id, after_lookup, u2f_authenticate_single,
}

-- The outcomes of looking up a credential and asking the device to sign.
pub data Single (c : Calls) (d : Dev) (fa : Assert) (key_id : Blob) (idx : ℕ) (w : World)
    : ℤ × Assert → World → Type 0 where
  failed : (r : ℤ) (fa' : Assert) (v : World) → IsCallCode r → Single c d fa key_id idx w (r, fa') v
  unknown :
      (v : World)
      → Answers c d fa.rp_id key_id unknown_status w v
      → Single c d fa key_id idx w (err_credential_excluded, fa) v
  not_asked :
      (fa' : Assert) (v : World)
      → HasNames fa (set (ids fa) idx key_id) fa'
      → Answers c d fa.rp_id key_id known_status w v
      → is_false fa.up ≡ true
      → Single c d fa key_id idx w (err_user_presence_required, fa') v
  asked :
      (fa' : Assert) (w1 v : World)
      → HasNames fa (set (ids fa) idx key_id) fa'
      → Answers c d fa.rp_id key_id known_status w w1
      → is_false fa.up ≡ false
      → Signs c d fa.up fa.rp_id fa.cdh key_id w1 v
      → Single c d fa key_id idx w (fido_ok, fa') v

module _ (c : Calls) (d : Dev) (plain : IsPlain c d) (key_id : Blob) (idx : ℕ) (w0 : World) where
  set_signed-Single :
      (fa fa1 : Assert) (r : Ret (List ℕ × List ℕ)) (w w1 : World)
      → HasNames fa (set (ids fa) idx key_id) fa1
      → Answers c d fa.rp_id key_id known_status w0 w
      → is_false fa.up ≡ false
      → do_auth c d fa.cdh fa.rp_id key_id w ≡ (ok r, w1)
      → OnRet IsCallCode (λ r v. Unit) r w1
      → Single c d fa key_id idx w0 (set_signed c fa1 idx r) w1
  set_signed-Single fa fa1 (err r) w w1 n known up run q = failed r fa1 w1 q
  set_signed-Single fa fa1 (val (sig, ad)) w w1 n known up run q =
      after_authdata (fido_assert_set_authdata c.decoder fa1 idx (some ad))
        (set_authdata-IsSetter c.decoder fa1 idx (some ad))
    where
      code : IsCallCode err_internal
      code = (refl, refl, refl)

      after_sig :
          (fa2 : Assert) (s : ℤ × Assert)
          → IsSetter fa1 (s.0, fa2)
          → IsSetter fa2 s
          → Single c d fa key_id idx w0 (signed s) w1
      after_sig fa2 (r, fa3) n1 n2 = elim (Bool-cases (eqb_ℤ r fido_ok)) [
        | inl good ↦
            rw good (asked fa3 w w1 (cc, cc, cc, cc) known up (signed_with w w1 sig ad up run))
        | inr bad ↦ rw bad (failed err_internal fa3 w1 code)
      ]

      after_authdata :
          (s : ℤ × Assert) → IsSetter fa1 s → Single c d fa key_id idx w0 (then_sig idx sig s) w1
      after_authdata (r, fa2) n1 = elim (Bool-cases (eqb_ℤ r fido_ok)) [
        | inl good ↦ rw good (
            after_sig fa2 (fido_assert_set_sig fa2 idx (some sig)) n1
              (set_sig-IsSetter fa2 idx (some sig)))
        | inr bad ↦ rw bad (failed err_internal fa2 w1 code)
      ]

  with_id-Single :
      (fa fa1 : Assert) (w : World)
      → HasNames fa (set (ids fa) idx key_id) fa1
      → Answers c d fa.rp_id key_id known_status w0 w
      → Ends (λ s v. Single c d fa key_id idx w0 s v) (with_id c d key_id fa1 idx true w)
  with_id-Single fa fa1 w n known = elim (Bool-cases (is_false fa1.up)) [
    | inl not_up ↦ rw not_up (return-Ends _ w (not_asked fa1 w n known (rw (sym n.1) not_up)))
    | inr not_off ↦ rw not_off (
        continue-Ends _ _ (outcome-Ends _ (do_auth-Ends c d plain fa1.cdh fa1.rp_id key_id w))
          λ r w1 q.
            let run : do_auth c d fa.cdh fa.rp_id key_id w ≡ (ok r, w1) = rw (n.2, n.3) at q.1 in
            return-Ends _ w1
              (set_signed-Single fa fa1 r w w1 n known (rw (sym n.1) not_off) run q.0))
  ]

  put_id-HasNames :
      (fa : Assert)
      → idx < length fa.stmt
      → HasNames fa (set (ids fa) idx key_id) (put_id fa idx key_id (get_elem? fa.stmt idx))
  put_id-HasNames fa h = go (get_elem? fa.stmt idx) refl
    where
      go :
          (o : Option Stmt)
          → get_elem? fa.stmt idx ≡ o
          → HasNames fa (set (ids fa) idx key_id) (put_id fa idx key_id o)
      go none e = absurd (get_elem?-none fa.stmt idx h e)
      go (some st) e =
          (map-set (λ (s : Stmt). s.id) fa.stmt idx (record st { id = key_id }), refl, refl, refl)

  after_lookup-Single :
      (fa : Assert) (r : Ret Bool) (w : World)
      → idx < length fa.stmt
      → OnRet IsCallCode (λ found v. Looked c d fa.rp_id key_id w0 found v) r w
      → Ends (λ s v. Single c d fa key_id idx w0 s v) (after_lookup c d key_id fa idx r w)
  after_lookup-Single fa (err r) w h q = return-Ends _ w (failed r fa w q)
  after_lookup-Single fa (val false) w h q = return-Ends _ w (unknown w q)
  after_lookup-Single fa (val true) w h q = go key_id refl
    where
      fails :
          (id : Blob)
          → Ends
              (λ s v. Single c d fa key_id idx w0 s v)
              (with_id c d key_id (put_id fa idx id (get_elem? fa.stmt idx)) idx false w)
      fails id = return-Ends _ w (failed err_internal _ w (refl, refl, refl))

      go :
          (b : Blob)
          → key_id ≡ b
          → Ends
              (λ s v. Single c d fa key_id idx w0 s v)
              (with_id c d key_id
                (put_id fa idx (fido_blob_set b).1 (get_elem? fa.stmt idx))
                idx
                (fido_blob_set b).0
                w)
      go none e = fails none
      go (some []) e = fails none
      go (some (x ∷ xs)) e = rw (sym e) (with_id-Single fa _ w (put_id-HasNames fa h) q)

  pub u2f_authenticate_single-Ends :
      (fa : Assert)
      → idx < length fa.stmt
      → Ends (λ s v. Single c d fa key_id idx w0 s v) (u2f_authenticate_single c d key_id fa idx w0)
  unfolding u2f_authenticate_single
  u2f_authenticate_single-Ends fa h =
      continue-Ends _ _ (key_lookup-Looked c d plain fa.rp_id key_id w0)
        λ r w1 q. after_lookup-Single fa r w1 h q

-- ===== src/GetAssert/OverU2f.antt =====
-- src/assert.c: getting assertions from a device that is not FIDO2.
use fido2_manage.Prelude.{
  ◌+◌, ◌≤◌, ◌≡◌, refl, ap, true, false, not, ◌||◌, List, length, take, ℤ, pos, negsuc, eqb_ℤ, ◌==◌,
  arith, Bool-cases, inl, inr,
}
use fido2_manage.Platform.{World}
use fido2_manage.Err.{fido_ok, err_invalid_argument, err_unsupported_option}
use fido2_manage.Try.{OnRet, option-Ends, throw-Ends}
use fido2_manage.Ends.{Ends, return-Ends, continue-Ends}
use fido2_manage.Device.{Dev}
use fido2_manage.Session.{fido_dev_is_fido2}
use fido2_manage.Blob.{Blob}
use fido2_manage.Assert.{Assert, is_true}
use fido2_manage.U2f
use fido2_manage.U2f.Wait
use fido2_manage.U2f.Authenticate.{is_false, no_keys}
use fido2_manage.Prelude.Sub.{SubList}
use fido2_manage.Assert.Names.{ids}
use fido2_manage.U2f.Known.{Knows-SubList}
use fido2_manage.U2f.Allowed.{Found, stopped, all, u2f_authenticate-Found}
use fido2_manage.Cbor.Encode.{Chars}
use fido2_manage.Ctap.{Calls}
use fido2_manage.Ctap.Total.{AnyCode}
use fido2_manage.Credman.{is_set}
use fido2_manage.GetAssert.{Got, by_u2f, coded, over_u2f, fido_dev_get_assert}

-- What was asked for can be had over U2F, and the statements name allowed credentials.
pub record IsAllowed (a : Assert) (pin : Chars) (g : Got) : Type 0 where
  pub fa : Assert
  pub found : List Blob
  pub got : g ≡ by_u2f fa
  pub no_pin : is_set pin ≡ false
  pub no_extension : a.ext_mask ≡ 0
  pub present : is_false a.up ≡ false
  pub allowed : SubList found a.allow_list
  pub names : take (length found) (ids fa) ≡ found
  pub stmt_len : fa.stmt_len ≡ length found
  pub some_there : 1 ≤ fa.stmt_len

ok_lem : (r : ℤ) → eqb_ℤ r fido_ok ≡ true → r ≡ fido_ok
ok_lem (pos n) h = ap pos (ground (arith, h))
ok_lem (negsuc n) h = absurd (ground (arith, h))

module _ (a : Assert) (pin : Chars) (no_pin : is_set pin ≡ false) (no_extension : a.ext_mask ≡ 0)
    (u : U2f.Calls) (d : Dev) (w : World) where
  Found-IsAllowed :
      (fa : Assert) (r : ℤ) (v : World)
      → eqb_ℤ r fido_ok ≡ true
      → Found u d a w a.allow_list 0 0 (r, fa) v
      → IsAllowed a pin (by_u2f fa)
  Found-IsAllowed fa r v yes_ok (stopped _ _ _ code) = cc
  Found-IsAllowed fa r v yes_ok (all _ _ _ more knows names len none_found good) =
      let fine = good (ok_lem r yes_ok) in
      let whole : 0 + length more ≡ length more = omega arith in
      let first_names : take (length more) (ids fa) ≡ more = rw whole at names in
      record {
        fa = fa;
        found = more;
        got = refl;
        no_pin = no_pin;
        no_extension = no_extension;
        present = fine.0;
        allowed = Knows-SubList u d a.up a.rp_id a.cdh w a.allow_list more v knows;
        names = first_names;
        stmt_len = omega (arith, len);
        some_there = fine.1;
      }

  coded-IsAllowed :
      (s : ℤ × Assert) (v : World)
      → Found u d a w a.allow_list 0 0 s v
      → OnRet AnyCode (λ g v. IsAllowed a pin g) (coded s) v
  coded-IsAllowed (r, fa) v found = elim (Bool-cases (eqb_ℤ r fido_ok)) [
    | inl good ↦ rw good (Found-IsAllowed fa r v good found)
    | inr bad ↦ rw bad tt
  ]

module _ (c : Calls) (u : U2f.Calls) (d : Dev) (plain : Wait.IsPlain u d) where
  over_u2f-Ends :
      (a : Assert) (pin : Chars) (w : World)
      → is_set pin ≡ false
      → a.ext_mask ≡ 0
      → is_true a.uv ≡ false
      → no_keys a.allow_list ≡ false
      → Ends (OnRet AnyCode (λ g v. IsAllowed a pin g)) (over_u2f u d a w)
  over_u2f-Ends a pin w no_pin no_extension uv keys =
      continue-Ends _ _ (u2f_authenticate-Found u d plain a w uv keys)
        λ s w1 found. return-Ends _ w1 (coded-IsAllowed a pin no_pin no_extension u d w s w1 found)

  -- On a device that is not FIDO2, without transport functions and with reports of at least 8 bytes,
  -- getting an assertion with an allow list and without user verification ends in every world. If it
  -- succeeds, neither a PIN nor extensions were asked for, the user's presence was not turned off, and
  -- the statements name allowed credentials, at least one, in the order of the allow list.
  pub get_assert-IsAllowed :
      (a : Assert) (pin : Chars) (w : World)
      → fido_dev_is_fido2 d ≡ false
      → is_true a.uv ≡ false
      → no_keys a.allow_list ≡ false
      → Ends (OnRet AnyCode (λ g v. IsAllowed a pin g)) (fido_dev_get_assert c u d a pin w)
  unfolding fido_dev_get_assert
  get_assert-IsAllowed a pin w old uv keys =
      option-Ends AnyCode err_invalid_argument a.rp_id _ _ tt λ rp_id e1.
        option-Ends AnyCode err_invalid_argument a.cdh _ _ tt λ cdh e2.
          elim (Bool-cases (is_set pin || not (a.ext_mask == 0))) [
            | inl refused ↦ rw (old, refused) (throw-Ends AnyCode err_unsupported_option _ tt)
            | inr fine ↦
                rw (old, fine)
                  (over_u2f-Ends a pin _ (ground (arith, fine)) (ground (arith, fine)) uv keys)
          ]

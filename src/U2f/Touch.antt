-- ===== src/U2f/Touch.antt =====
-- src/u2f.c: asking the user to touch a device, and whether the user did.
use fido2_manage.Prelude.{
  ℕ, ◌≡◌, refl, subst, sym, ◌∙◌, ◌<◌, ◌≤◌, Bool, true, false, List, [], ◌∷◌, Option, none, some,
  length, ltb, ◌==◌, bit_and, if◌then◌else◌, Bool-cases, inl, inr, arith,
}
use fido2_manage.Platform.{World, M, Result, ok, fail, hang, attempt, attempt_result, continue}
use fido2_manage.Err.{fido_ok, err_tx, err_rx, err_internal}
use fido2_manage.Try.{
  Try, val, ◌>>=◌, ◌>>◌, rest_of, or_code, give, throw, try, try_option, OnRet, then-Ends,
  or_code-Ends, option-Ends, try_option-Ends, give-Ends, throw-Ends,
}
use fido2_manage.Ends.{Ends, return-Ends, weaken-Ends, ok-injective}
use fido2_manage.Device.{Dev}
use fido2_manage.Apdu.{apdu_bytes, iso7816_new, iso7816_add}
use fido2_manage.Io.{fido_tx, fido_rx}
use fido2_manage.Io.Total.{Stops, attempt-Stops, fido_tx-Stops, fido_rx-Ends}
use fido2_manage.U2f.{
  Calls, cmd_msg, fido_maxmsg, register_apdu, last_status, sw_conditions_not_satisfied, sw_no_error,
  u2f_cmd_register,
}
use fido2_manage.U2f.Wait.{IsPlain, IsCallCode, to_unit}

-- "localhost"; the client data are the empty string.
abbrev pub dummy_rp_id : List ℕ
dummy_rp_id = 108 ∷ 111 ∷ 99 ∷ 97 ∷ 108 ∷ 104 ∷ 111 ∷ 115 ∷ 116 ∷ []

abbrev pub cmd_wink : ℕ
cmd_wink = 0x08

abbrev pub cap_wink : ℕ
cap_wink = 0x01

-- A call whose outcome is not looked at.
abbrev pub ignore : {A : Type 0} → M A → Try (Unit {0})
ignore call = do _ ← try fido_ok (attempt call); give tt

abbrev pub wink : Calls → Dev → Try (Unit {0})
wink c d = if bit_and d.attr.flags cap_wink == 0 then give tt else do
  ignore (fido_tx c.driver d cmd_wink [])
  ignore (fido_rx c.driver d cmd_wink fido_maxmsg)

unfoldable pub u2f_get_touch_begin : Calls → Dev → Try (Unit {0})
u2f_get_touch_begin c d = do
  clientdata_hash ← try_option err_internal (c.sha256 [])
  rp_id_hash ← try_option err_internal (c.sha256 dummy_rp_id)
  a ← register_apdu clientdata_hash rp_id_hash
  wink c d
  try err_tx (fido_tx c.driver d cmd_msg (apdu_bytes a))

-- The switch on the last two bytes.
abbrev pub touch_status : Calls → Dev → List ℕ → Try Bool
touch_status c d reply =
    if last_status reply == sw_conditions_not_satisfied
    then (u2f_get_touch_begin c d >> give false)
    else if last_status reply == sw_no_error
    then give true
    else throw err_rx

-- `touched` was set before, and stays if there is no answer.
abbrev pub after_rx : Calls → Dev → Bool → Option (List ℕ) → Try Bool
after_rx c d touched none = give touched
after_rx c d touched (some reply) =
    if ltb (length reply) 2 then give touched else touch_status c d reply

abbrev pub attempt_ret : {A : Type 0} → M A → Try (Option A)
attempt_ret call = try err_rx (attempt call)

unfoldable pub u2f_get_touch_status : Calls → Dev → Bool → Try Bool
u2f_get_touch_status c d touched = do
  r ← attempt_ret (fido_rx c.driver d cmd_msg fido_maxmsg)
  after_rx c d touched r

-- What a poll saw, of which the flag afterwards is the last argument: nothing, so that the flag
-- stays; a confirmation; or that the device waits for the user.
pub data Seen (c : Calls) (d : Dev) (touched : Bool) (w : World) (after : Bool) : Type 0 where
  silent :
      after ≡ touched
      → ((reply : List ℕ)
          → (fido_rx c.driver d cmd_msg fido_maxmsg w).0 ≡ ok reply
          → length reply < 2)
      → Seen c d touched w after
  confirmed :
      after ≡ true
      → (reply : List ℕ) → (fido_rx c.driver d cmd_msg fido_maxmsg w).0 ≡ ok reply
      → 2 ≤ length reply
      → last_status reply ≡ sw_no_error
      → Seen c d touched w after
  waiting :
      after ≡ false
      → (reply : List ℕ) → (fido_rx c.driver d cmd_msg fido_maxmsg w).0 ≡ ok reply
      → 2 ≤ length reply
      → last_status reply ≡ sw_conditions_not_satisfied
      → Seen c d touched w after

register_apdu-Ends :
    (challenge application : List ℕ) (w : World)
    → Ends (OnRet IsCallCode (λ a v. Unit)) (register_apdu challenge application w)
unfolding register_apdu
register_apdu-Ends challenge application w =
    let code : IsCallCode err_internal = (refl, refl, refl) in
    let first = iso7816_add (iso7816_new 0 u2f_cmd_register 0 64) challenge in
    option-Ends IsCallCode err_internal first _ w code λ a e.
      weaken-Ends (try_option err_internal (iso7816_add a application) w)
        (try_option-Ends IsCallCode err_internal (iso7816_add a application) w code)
        (to_unit (iso7816_add a application))

module _ (c : Calls) (d : Dev) (plain : IsPlain c d) where
  ignore-Ends :
      {A : Type 0} (call : M A) (w : World)
      → Stops (call w)
      → Ends (OnRet IsCallCode (λ u v. Unit)) (ignore call w)
  ignore-Ends call w h = then-ok (call w) (attempt-Stops (call w) h)
    where
      then-ok :
          {A : Type 0} (r : Result A × World)
          → Stops (attempt_result r)
          → Ends
              (OnRet IsCallCode (λ u v. Unit))
              (continue (rest_of (λ (a : Option A). give tt)) (or_code fido_ok (attempt_result r)))
      then-ok (ok a, v) h = return-Ends (val tt) v tt
      then-ok (fail, v) h = return-Ends (val tt) v tt
      then-ok (hang, v) h = absurd (h.ends refl)

  rx-Stops : (cmd : ℕ) (w : World) → Stops (fido_rx c.driver d cmd fido_maxmsg w)
  rx-Stops cmd w =
      weaken-Ends (fido_rx c.driver d cmd fido_maxmsg w)
        (fido_rx-Ends c.driver d cmd fido_maxmsg w plain.transport_rx plain.rx_len) (λ a v q. tt)

  wink-Ends : (w : World) → Ends (OnRet IsCallCode (λ u v. Unit)) (wink c d w)
  wink-Ends w = elim (Bool-cases (bit_and d.attr.flags cap_wink == 0)) [
    | inl cannot ↦ rw cannot (give-Ends IsCallCode tt w tt)
    | inr can ↦ rw can (
        then-Ends IsCallCode _ _
          (ignore-Ends (fido_tx c.driver d cmd_wink []) w
            (fido_tx-Stops c.driver d cmd_wink [] w plain.transport_tx))
          λ u w1 e1.
            ignore-Ends (fido_rx c.driver d cmd_wink fido_maxmsg) w1 (rx-Stops cmd_wink w1))
  ]

  touch_begin-Ends : (w : World) → Ends (OnRet IsCallCode (λ u v. Unit)) (u2f_get_touch_begin c d w)
  unfolding u2f_get_touch_begin
  touch_begin-Ends w =
      let code : IsCallCode err_internal = (refl, refl, refl) in
      option-Ends IsCallCode err_internal (c.sha256 []) _ w code λ cdh e1.
        option-Ends IsCallCode err_internal (c.sha256 dummy_rp_id) _ w code λ rp e2.
          then-Ends IsCallCode _ _ (register_apdu-Ends cdh rp w) λ a w1 e4.
            then-Ends IsCallCode _ _ (wink-Ends w1) λ u w2 e5.
              or_code-Ends IsCallCode err_tx _ (refl, refl, refl)
                (fido_tx-Stops c.driver d cmd_msg (apdu_bytes a) w2 plain.transport_tx)

  touch_status-Seen :
      (touched : Bool) (w : World) (reply : List ℕ) (v : World)
      → (fido_rx c.driver d cmd_msg fido_maxmsg w).0 ≡ ok reply
      → 2 ≤ length reply
      → Ends (OnRet IsCallCode (λ t u. Seen c d touched w t)) (touch_status c d reply v)
  touch_status-Seen touched w reply v rx long =
      elim (Bool-cases (last_status reply == sw_conditions_not_satisfied)) [
        | inl again ↦ rw again (
            then-Ends IsCallCode _ _ (touch_begin-Ends v) λ u v1 e1.
              give-Ends IsCallCode false v1 (waiting refl reply rx long (ground (arith, again))))
        | inr done ↦ elim (Bool-cases (last_status reply == sw_no_error)) [
          | inl fine ↦
              rw (done, fine)
                (give-Ends IsCallCode true v (confirmed refl reply rx long (ground (arith, fine))))
          | inr other ↦ rw (done, other) (throw-Ends IsCallCode err_rx v (refl, refl, refl))
        ]
      ]

  after_rx-Seen :
      (touched : Bool) (w : World) (r : Result (List ℕ) × World)
      → (fido_rx c.driver d cmd_msg fido_maxmsg w).0 ≡ r.0
      → Stops r
      → Ends
          (OnRet IsCallCode (λ t u. Seen c d touched w t))
          (continue (rest_of (after_rx c d touched)) (or_code err_rx (attempt_result r)))
  after_rx-Seen touched w (ok reply, v) rx h = elim (Bool-cases (ltb (length reply) 2)) [
    | inl short ↦ rw short (
        give-Ends IsCallCode touched v (
          silent refl λ other e.
            subst (λ bs. length bs < 2) (ok-injective reply other (sym rx ∙ e))
              (ground (arith, short))))
    | inr long ↦ rw long (touch_status-Seen touched w reply v rx (ground (arith, long)))
  ]
  after_rx-Seen touched w (fail, v) rx h =
      give-Ends IsCallCode touched v (silent refl λ other e. cc)
  after_rx-Seen touched w (hang, v) rx h = absurd (h.ends refl)

  -- Without transport functions and with reports of at least 8 bytes, a poll for the user's touch
  -- ends in every world. If it succeeds, then the flag is set when the device gave a message of at
  -- least two bytes that ends in the status for success, cleared when it gave one that ends in the
  -- status for waiting, and is as before when it gave no message of at least two bytes.
  pub get_touch_status-Seen :
      (touched : Bool) (w : World)
      → Ends
          (OnRet IsCallCode (λ after v. Seen c d touched w after))
          (u2f_get_touch_status c d touched w)
  unfolding u2f_get_touch_status
  get_touch_status-Seen touched w =
      after_rx-Seen touched w (fido_rx c.driver d cmd_msg fido_maxmsg w) refl (rx-Stops cmd_msg w)

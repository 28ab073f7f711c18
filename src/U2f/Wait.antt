-- ===== src/U2f/Wait.antt =====
-- src/u2f.c: waiting for the user. The loops stop with the driver's outcomes, of which a
-- world holds finitely many.
use fido2_manage.Prelude.{
  ℕ, zero, suc, ◌*◌, ◌≤◌, ◌<◌, ◌≡◌, ◌≢◌, ap, refl, not, ◌&&◌, List, Option, none, length,
  Bool-cases, inl, inr, ltb, ◌==◌, ltb_ℤ, ℤ, eqb_ℤ, pos, pos_part, if◌then◌else◌, arith, false, ◌∷◌,
  [], ◌%◌, ◌^◌, take, ◌||◌, some, ◌+◌, ◌-◌,
}
use fido2_manage.Platform.{World, Result, continue}
use fido2_manage.Err.{
  fido_ok, err_user_presence_required, err_credential_excluded, err_tx, err_rx, err_internal,
  err_invalid_argument,
}
use fido2_manage.Try.{
  try_option-Ends, give-Ends, val, err, OnRet, or_code-Ends, then-Ends, Ret, try_option, try,
}
use fido2_manage.Ends.{Ends, return-Ends, weaken-Ends}
use fido2_manage.Device.{Dev}
use fido2_manage.Io.{fido_tx, fido_rx}
use fido2_manage.Io.Total.{Quiet, continue-Quiet, return-Quiet, fido_tx-Quiet, fido_rx-Ends}
use fido2_manage.Blob.{Blob, blob_bytes}
use fido2_manage.Apdu.{Apdu, apdu_bytes, iso7816_new, iso7816_add}
use fido2_manage.U2f.{
  auth_apdu, do_auth, parse_auth_reply, Calls, delay_ms, take_off, exchange, exchange_all,
  status_at, sw_conditions_not_satisfied, cmd_msg, fido_maxmsg, u2f_pace_ms, u2f_auth_sign,
  u2f_cmd_auth, sw_no_error, last_status, authdata_fake,
}
use fido2_manage.Buf.{fido_buf_read}

-- Sleeping ends and reads nothing, and the driver has no transport functions.
pub record IsPlain (c : Calls) (d : Dev) : Type 0 where
  pub usleep : (n : ℕ) (w : World) → Quiet w.incoming (c.usleep n w)
  pub transport_tx : c.driver.transport_tx ≡ none
  pub transport_rx : c.driver.transport_rx ≡ none
  pub rx_len : 8 ≤ d.rx_len

Quiet-Ends :
    {A : Type 0} (i : List (Option (List ℕ))) (r : Result A × World)
    → Quiet i r
    → Ends (λ a v. v.incoming ≡ i) r
Quiet-Ends i r q = record { ends = q.stops.ends; value = λ a e. q.incoming }

delay_ms-Quiet :
    (c : Calls) (d : Dev) (ms : ℕ) (w : World)
    → IsPlain c d
    → Ends (λ a v. v.incoming ≡ w.incoming) (delay_ms c ms w)
unfolding delay_ms
delay_ms-Quiet c d ms w plain =
    let short = not (ltb_ℤ w.ms (pos 0)) && ltb (pos_part w.ms) ms in
    let ms' = if short then pos_part w.ms else ms in
    elim (Bool-cases (ltb 4294967 ms')) [
      | inl over ↦ rw over (record { ends = λ e. cc; value = λ a e. cc })
      | inr fits ↦ rw fits (
          Quiet-Ends w.incoming (continue (λ _. take_off ms') (c.usleep (ms' * 1000) w)) (
            continue-Quiet w.incoming (λ _. take_off ms') (c.usleep (ms' * 1000) w)
              (plain.usleep (ms' * 1000) w)
              (λ a v q. return-Quiet w.incoming tt _ (ground (arith, q)))))
    ]

-- The codes that a switch on the outcome of a credential tells apart are not among these.
abbrev pub IsCallCode : ℤ → Type 0
IsCallCode r =
    (eqb_ℤ r fido_ok ≡ false)
    × (eqb_ℤ r err_user_presence_required ≡ false)
    × (eqb_ℤ r err_credential_excluded ≡ false)

-- An answer of at least two bytes that does not ask for patience.
abbrev pub IsFinal : List ℕ → Type 0
IsFinal reply =
    (2 ≤ length reply)
    × (length reply ≤ fido_maxmsg)
    × (status_at 0 reply ≢ sw_conditions_not_satisfied)

exchange-Ends :
    (fuel : ℕ) (c : Calls) (d : Dev) (msg : List ℕ) (w : World)
    → IsPlain c d
    → length w.incoming < fuel
    → Ends (OnRet IsCallCode (λ reply v. IsFinal reply)) (exchange fuel c d msg w)
unfolding exchange
exchange-Ends zero c d msg w plain h = absurd (omega arith)
exchange-Ends (suc fuel) c d msg w plain h =
    then-Ends IsCallCode _ _
      (or_code-Ends IsCallCode err_tx (fido_tx c.driver d cmd_msg msg w) (refl, refl, refl)
        (Quiet-Ends w.incoming _
          (fido_tx-Quiet w.incoming c.driver d cmd_msg msg w plain.transport_tx refl)))
      λ u w1 e1.
        then-Ends IsCallCode _ _
          (or_code-Ends IsCallCode err_rx (fido_rx c.driver d cmd_msg fido_maxmsg w1)
            (refl, refl, refl)
            (fido_rx-Ends c.driver d cmd_msg fido_maxmsg w1 plain.transport_rx plain.rx_len))
          λ reply w2 e2. elim (Bool-cases (ltb (length reply) 2)) [
            | inl short ↦ rw short (return-Ends (err err_rx) w2 (refl, refl, refl))
            | inr long ↦ rw long (
                then-Ends IsCallCode _ _
                  (or_code-Ends IsCallCode err_rx (delay_ms c u2f_pace_ms w2) (refl, refl, refl)
                    (delay_ms-Quiet c d u2f_pace_ms w2 plain))
                  λ u2 w3 e3. elim (Bool-cases (status_at 0 reply == sw_conditions_not_satisfied)) [
                    | inl again ↦ rw again (
                        exchange-Ends fuel c d msg w3 plain
                          (omega (arith, ap length e1, e2.1, ap length e3)))
                    | inr done ↦ rw done (
                        return-Ends (val reply) w3
                          (ground (arith, long), e2.0, λ same. ground (arith, done, same)))
                  ])
          ]

-- The model's loop has fuel enough: in a world, whose reads are finitely many, it does not run out
-- of it. Its answer has a status word, fits the buffer, and does not ask to wait.
pub exchange_all-Ends :
    (c : Calls) (d : Dev) (msg : List ℕ) (w : World)
    → IsPlain c d
    → Ends (OnRet IsCallCode (λ reply v. IsFinal reply)) (exchange_all c d msg w)
unfolding exchange_all
exchange_all-Ends c d msg w plain =
    exchange-Ends (suc (length w.incoming)) c d msg w plain (omega arith)

pub to_unit :
    {A : Type 0} (o : Option A) (r : Ret A) (v : World)
    → OnRet IsCallCode (λ a v. o ≡ some a) r v
    → OnRet IsCallCode (λ a v. Unit) r v
to_unit o (val a) v q = tt
to_unit o (err e) v q = q

pub auth_apdu-Ends :
    (p1 : ℕ) (challenge rp_id_hash key : List ℕ) (w : World)
    → Ends (OnRet IsCallCode (λ a v. Unit)) (auth_apdu p1 challenge rp_id_hash key w)
unfolding auth_apdu
auth_apdu-Ends p1 challenge rp_id_hash key w =
    let code : IsCallCode err_internal = (refl, refl, refl) in
    let n = length key % 256 in
    let a0 = iso7816_new 0 u2f_cmd_auth p1 ((64 + 1 + n) % 2 ^ 16) in
    let add =
      λ (a : Apdu) (bs : List ℕ). try_option-Ends IsCallCode err_internal (iso7816_add a bs) in
    then-Ends IsCallCode _ _ (add a0 challenge w code) λ a1 w1 e1.
      then-Ends IsCallCode _ _ (add a1 rp_id_hash w1 code) λ a2 w2 e2.
        then-Ends IsCallCode _ _ (add a2 (n ∷ []) w2 code) λ a3 w3 e3.
          weaken-Ends (try_option err_internal (iso7816_add a3 (take n key)) w3)
            (add a3 (take n key) w3 code) (to_unit (iso7816_add a3 (take n key)))

-- The transmission of a message and its answer.
module _ (c : Calls) (d : Dev) (plain : IsPlain c d) where
  tx-Ends :
      (msg : List ℕ) (w : World)
      → Ends (OnRet IsCallCode (λ u v. Unit)) (try err_tx (fido_tx c.driver d cmd_msg msg) w)
  tx-Ends msg w =
      or_code-Ends IsCallCode err_tx _ (refl, refl, refl)
        (fido_tx-Quiet w.incoming c.driver d cmd_msg msg w plain.transport_tx refl).stops

  rx-Ends :
      (w : World)
      → Ends
          (OnRet IsCallCode (λ reply v. Unit))
          (try err_rx (fido_rx c.driver d cmd_msg fido_maxmsg) w)
  rx-Ends w =
      or_code-Ends IsCallCode err_rx _ (refl, refl, refl)
        (weaken-Ends (fido_rx c.driver d cmd_msg fido_maxmsg w)
          (fido_rx-Ends c.driver d cmd_msg fido_maxmsg w plain.transport_rx plain.rx_len)
          (λ a v q. tt))

  parse_auth_reply-Ends :
      (id reply : List ℕ) (w : World)
      → Ends (OnRet IsCallCode (λ r v. Unit)) (parse_auth_reply c id reply w)
  unfolding parse_auth_reply
  parse_auth_reply-Ends id reply w =
      let code : IsCallCode err_rx = (refl, refl, refl) in
      let body =
        if ltb (length reply) 2 || not (last_status reply == sw_no_error)
        then none
        else some (take (length reply - 2) reply) in
      then-Ends IsCallCode _ _ (try_option-Ends IsCallCode err_rx body w code) λ b w1 e1.
        then-Ends IsCallCode _ _ (try_option-Ends IsCallCode err_rx (fido_buf_read b 1) w1 code)
          λ f w2 e2.
            then-Ends IsCallCode _ _
              (try_option-Ends IsCallCode err_rx (fido_buf_read f.1 4) w2 code)
              λ s w3 e3.
                then-Ends IsCallCode _ _
                  (try_option-Ends IsCallCode err_rx (authdata_fake c id f.0 s.0) w3 code)
                  λ ad w4 e4. give-Ends IsCallCode (s.1, ad) w4 tt

  pub do_auth-Ends :
      (cdh : Blob) (rp_id : Option (List ℕ)) (key_id : Blob) (w : World)
      → Ends (OnRet IsCallCode (λ r v. Unit)) (do_auth c d cdh rp_id key_id w)
  unfolding do_auth
  do_auth-Ends cdh rp_id key_id w =
      let key = blob_bytes key_id in
      let id =
        if not (length (blob_bytes cdh) == 32) || ltb 255 (length key) then none else rp_id in
      then-Ends IsCallCode _ _
        (try_option-Ends IsCallCode err_invalid_argument id w (refl, refl, refl))
        λ id w1 e1.
          then-Ends IsCallCode _ _
            (try_option-Ends IsCallCode err_internal (c.sha256 id) w1 (refl, refl, refl))
            λ h w2 e2.
              then-Ends IsCallCode _ _ (auth_apdu-Ends u2f_auth_sign (blob_bytes cdh) h key w2)
                λ a w3 e3.
                  then-Ends IsCallCode _ _ (exchange_all-Ends c d (apdu_bytes a) w3 plain)
                    λ reply w4 e4. parse_auth_reply-Ends id reply w4

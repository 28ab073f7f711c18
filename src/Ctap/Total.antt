-- ===== src/Ctap/Total.antt =====
-- src/io.c and src/cbor.c: a command of CTAP2 ends, whatever the device answers.
use fido2_manage.Prelude.{
  ℕ, ◌≤◌, ◌≡◌, refl, ap, List, [], ◌∷◌, ◌++◌, Option, none, some, drop, ℤ, true, ◌==◌, Bool-cases,
  inl, inr, eqb_ℤ,
}
use fido2_manage.Platform.{World, Result, ok, continue}
use fido2_manage.Err.{fido_ok, err_tx, err_rx, err_internal}
use fido2_manage.Try.{
  Ret, val, err, Try, OnRet, then-Ends, option-Ends, or_code-Ends, give-Ends, throw-Ends, try,
  try_option, or_code, rest_of,
}
use fido2_manage.Ends.{Ends, return-Ends, weaken-Ends}
use fido2_manage.Device.{Dev}
use fido2_manage.Io.{fido_tx, fido_rx, fido_rx_cbor_status}
use fido2_manage.Io.Total.{rx_cbor_status-Stops, fido_tx-Quiet, fido_rx-Ends}
use fido2_manage.Cbor.{Value, uint, Parser, cbor_parse_reply, cbor_build_frame}
use fido2_manage.Flags.{fido_dev_get_pin_protocol}
use fido2_manage.Cbor.Auth.{cbor_encode_pin_opt}
use fido2_manage.Cbor.Keys.{blank_point}
use fido2_manage.Ctap.{
  Calls, cmd_cbor, fido_maxmsg, send_frame, give_ret, receive, receive_parsed, aes256_cbc_enc,
  aes256_cbc_fips_enc, aes256_cbc_proto1, aes256_cbc, fips_checks, fido_dev_authkey,
  fido_dev_authkey_tx, fido_dev_authkey_rx, parse_authkey, cbor_client_pin, fido_do_ecdh, do_ecdh,
  device_accepts, internal_if,
}

-- The driver has no transport functions, and random bytes and keys come without it.
pub record IsPlain (c : Calls) (d : Dev) : Type 0 where
  pub transport_tx : c.driver.transport_tx ≡ none
  pub transport_rx : c.driver.transport_rx ≡ none
  pub rx_len : 8 ≤ d.rx_len
  pub get_random : (n : ℕ) (w : World) → Ends (λ bs v. Unit) (c.get_random n w)
  pub new_key : (w : World) → Ends (λ k v. Unit) (c.new_key w)

abbrev pub AnyCode : ℤ → Type 0
AnyCode r = Unit

-- Any value and any code.
abbrev pub AnyRet : {A : Type 0} → Ret A → World → Type 0
AnyRet = OnRet AnyCode (λ a v. Unit)

pub any_option :
    {A : Type 0} (code : ℤ) (o : Option A) (w : World) → Ends AnyRet (try_option code o w)
any_option code none w = return-Ends (err code) w tt
any_option code (some a) w = return-Ends (val a) w tt

pub any_then :
    {A B : Type 0} (rest : A → Try B) (r : Result (Ret A) × World)
    → Ends AnyRet r
    → ((a : A) (w : World) → Ends AnyRet (rest a w))
    → Ends AnyRet (continue (rest_of rest) r)
any_then rest r h k = then-Ends AnyCode rest r h (λ a w u. k a w)

pub any_try :
    {A : Type 0} {P : A → World → Type 0} (code : ℤ) (r : Result A × World)
    → Ends P r
    → Ends AnyRet (or_code code r)
any_try code r h = or_code-Ends AnyCode code r tt (weaken-Ends r h (λ a v p. tt))

any_ret : {A : Type 0} (r : Ret A) (w : World) → Ends AnyRet (give_ret r w)
any_ret (val a) w = return-Ends (val a) w tt
any_ret (err code) w = return-Ends (err code) w tt

pub give_ret-Ends :
    {A : Type 0} (r : Ret A) (w : World) → Ends (OnRet AnyCode (λ a v. r ≡ val a)) (give_ret r w)
give_ret-Ends (val a) w = return-Ends (val a) w refl
give_ret-Ends (err code) w = return-Ends (err code) w tt

-- The outcome of a call that ends.
pub outcome-Ends :
    {A : Type 0} (r : Result (Ret A) × World)
    → Ends AnyRet r
    → Ends (OnRet AnyCode (λ a v. r ≡ (ok (val a), v))) r
outcome-Ends {A} r h = record { ends = h.ends; value = λ a e. each a e }
  where
    each : (a : Ret A) → r.0 ≡ ok a → OnRet AnyCode (λ b v. r ≡ (ok (val b), v)) a r.1
    each (val b) e = ap (λ x. (x, r.1)) e
    each (err code) e = tt

-- A parsed reply, in the same world.
pub parsed_here-Ends :
    {A : Type 0} (r : Ret A) (w : World)
    → Ends (OnRet AnyCode (λ a v. (r ≡ val a) × (v ≡ w))) (give_ret r w)
parsed_here-Ends (val a) w = return-Ends (val a) w (refl, refl)
parsed_here-Ends (err code) w = return-Ends (err code) w tt

internal_if-Ends : {A : Type 0} (r : Ret A) (w : World) → Ends AnyRet (internal_if r w)
internal_if-Ends (val a) w = return-Ends (val a) w tt
internal_if-Ends (err code) w = return-Ends (err err_internal) w tt

module _ (c : Calls) (d : Dev) (plain : IsPlain c d) where
  pub send_frame-Ends :
      (cmd : ℕ) (argv : List (Option Value)) (w : World) → Ends AnyRet (send_frame c d cmd argv w)
  unfolding send_frame
  send_frame-Ends cmd argv w =
      option-Ends AnyCode err_tx (cbor_build_frame c.cbor cmd argv)
        (λ f. try err_tx (fido_tx c.driver d cmd_cbor f)) w tt
        λ f e.
          any_try err_tx (fido_tx c.driver d cmd_cbor f w)
            (fido_tx-Quiet w.incoming c.driver d cmd_cbor f w plain.transport_tx refl).stops

  pub receive-Ends : (w : World) → Ends AnyRet (receive c d w)
  unfolding receive
  receive-Ends w =
      any_try err_rx (fido_rx c.driver d cmd_cbor fido_maxmsg w)
        (fido_rx-Ends c.driver d cmd_cbor fido_maxmsg w plain.transport_rx plain.rx_len)

  pub any_parsed :
      {S : Type 0} (f : Parser S) (s : S) (w : World) → Ends AnyRet (receive_parsed c d f s w)
  unfolding receive_parsed
  any_parsed f s w =
      any_then _ _ (receive-Ends w) λ msg w1. any_ret (cbor_parse_reply c.cbor msg f s) w1

  pub aes256_cbc_enc-Ends :
      (secret bs : List ℕ) (w : World) → Ends AnyRet (aes256_cbc_enc c d secret bs w)
  unfolding aes256_cbc_enc aes256_cbc_fips_enc
  aes256_cbc_enc-Ends secret bs w = elim (Bool-cases (fido_dev_get_pin_protocol d == 2)) [
    | inr one ↦ rw one (any_option err_internal (aes256_cbc_proto1 c true secret bs) w)
    | inl two ↦ rw two (
        any_then _ _ (any_option err_internal (fips_checks secret bs) w) λ u w1.
          any_then _ _ (any_try err_internal (c.get_random 16 w1) (plain.get_random 16 w1)) λ iv w2.
            any_then _ _ (any_option err_internal (aes256_cbc c true (drop 32 secret) iv bs) w2)
              λ out w3. give-Ends AnyCode (iv ++ out) w3 tt)
  ]

  authkey-Ends : (w : World) → Ends AnyRet (fido_dev_authkey c d w)
  unfolding fido_dev_authkey fido_dev_authkey_tx fido_dev_authkey_rx
  authkey-Ends w =
      any_then _ _
        (any_then _ _ (any_option err_internal (cbor_encode_pin_opt d) w)
          λ opt w1. send_frame-Ends cbor_client_pin (some opt ∷ some (uint 1 2) ∷ []) w1)
        λ u w2. any_parsed parse_authkey (blank_point 32) w2

  pub fido_do_ecdh-Ends : (w : World) → Ends AnyRet (fido_do_ecdh c d w)
  unfolding fido_do_ecdh
  fido_do_ecdh-Ends w =
      any_then _ _ (any_try err_internal (c.new_key w) (plain.new_key w)) λ key w1.
        any_then _ _
          (any_then _ _ (any_try err_internal (fido_dev_authkey c d w1) (authkey-Ends w1))
            λ r w2. internal_if-Ends r w2)
          λ ak w3.
            any_then _ _ (any_option err_internal (do_ecdh c d key.0 ak) w3)
              λ secret w4. give-Ends AnyCode (key.1, secret) w4 tt

  pub device_accepts-Ends : (w : World) → Ends AnyRet (device_accepts c d w)
  unfolding device_accepts
  device_accepts-Ends w =
      any_then _ _
        (any_try err_rx (fido_rx_cbor_status c.driver d w)
          (rx_cbor_status-Stops c.driver d w plain.transport_rx plain.rx_len))
        λ r w1. elim (Bool-cases (eqb_ℤ r fido_ok)) [
          | inl fine ↦ rw fine (give-Ends AnyCode tt w1 tt)
          | inr bad ↦ rw bad (throw-Ends AnyCode r w1 tt)
        ]

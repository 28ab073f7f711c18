-- ===== src/Credman/Total.antt =====
-- src/credman.c: sending a subcommand ends, whatever the device answers.
use fido2_manage.Prelude.{ℕ, List, [], ◌∷◌, Option, none, some, Bool, ◌||◌, Bool-cases, inl, inr}
use fido2_manage.Platform.{World}
use fido2_manage.Err.{err_internal, err_invalid_command}
use fido2_manage.Try.{err, give-Ends}
use fido2_manage.Ends.{Ends, return-Ends}
use fido2_manage.Device.{Dev}
use fido2_manage.Session.{fido_dev_is_fido2}
use fido2_manage.Cbor.{Value, uint}
use fido2_manage.Cbor.Encode.{Chars}
use fido2_manage.Ctap.{Calls}
use fido2_manage.Ctap.Total.{
  IsPlain, AnyCode, AnyRet, any_option, any_then, send_frame-Ends, fido_do_ecdh-Ends,
}
use fido2_manage.Pin.Total.{add_uv_params-Ends}
use fido2_manage.Credman.{
  Body, credman_prepare_hmac, credman_get_cmd, signed_args, is_set, credman_tx,
}

module _ (c : Calls) (d : Dev) (plain : IsPlain c d) where
  signed_args-Ends :
      (subcmd : ℕ) (body : Body) (pin rp_id : Chars) (w : World)
      → Ends AnyRet (signed_args c d subcmd body pin rp_id w)
  unfolding signed_args
  signed_args-Ends subcmd body pin rp_id w =
      any_then _ _ (any_option err_internal (credman_prepare_hmac c subcmd body) w) λ a w1.
        any_then _ _ (fido_do_ecdh-Ends c d plain w1) λ k w2.
          any_then _ _ (add_uv_params-Ends c d plain (credman_get_cmd d) a.1 k.0 k.1 pin rp_id w2)
            λ p w3. give-Ends AnyCode (a.0 ∷ some p.1 ∷ some p.0 ∷ []) w3 tt

  pub credman_tx-Ends :
      (subcmd : ℕ) (body : Body) (pin rp_id : Chars) (uv : Bool) (w : World)
      → Ends AnyRet (credman_tx c d subcmd body pin rp_id uv w)
  unfolding credman_tx
  credman_tx-Ends subcmd body pin rp_id uv w =
      let send = λ (args : List (Option Value)) (v : World).
        send_frame-Ends c d plain (credman_get_cmd d) (some (uint 1 subcmd) ∷ args) v in
      elim (Bool-cases (fido_dev_is_fido2 d)) [
        | inr old ↦ rw old (return-Ends (err err_invalid_command) w tt)
        | inl fido2 ↦ elim (Bool-cases (is_set pin || uv)) [
          | inl signed ↦
              rw (fido2, signed) (any_then _ _ (signed_args-Ends subcmd body pin rp_id w) send)
          | inr unsigned ↦ rw (fido2, unsigned) (send (none ∷ none ∷ none ∷ []) w)
        ]
      ]

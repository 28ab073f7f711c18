-- ===== src/GetAssert.antt =====
-- src/assert.c: getting assertions from a device. What a failed call leaves in the assertion is not
-- kept.
pub mod Request
pub mod Reply
pub mod Total
pub mod Secrets
pub mod Answered
pub mod OverU2f
mod Tests
use mathlib.Core.Option
use fido2_manage.Prelude.{
  ℕ, suc, Bool, not, ◌||◌, List, [], ◌∷◌, Option, none, some, ◌==◌, ℤ, eqb_ℤ, if◌then◌else◌,
}
use fido2_manage.Platform
use fido2_manage.Platform.{M}
use fido2_manage.Err.{fido_ok, err_tx, err_internal, err_invalid_argument, err_unsupported_option}
use fido2_manage.Try.{Ret, val, err, Try, ◌>>=◌, ◌>>◌, give, throw, try, try_option}
use fido2_manage.Device.{Dev}
use fido2_manage.Io.{fido_tx}
use fido2_manage.Session.{fido_dev_is_fido2}
use fido2_manage.Assert.{Assert}
use fido2_manage.Assert.Stmts.{Decoder}
use fido2_manage.U2f
use fido2_manage.U2f.Authenticate.{u2f_authenticate}
use fido2_manage.Cbor.{cbor_parse_reply}
use fido2_manage.Cbor.Encode.{Chars, has_ext, ext_hmac_secret}
use fido2_manage.Ctap.{
  Calls, cmd_cbor, receive, give_ret, aes256_cbc_dec, fido_do_ecdh, with_timeout,
}
use fido2_manage.Credman.{is_set}
use fido2_manage.Listing.{Listing, Kind, first_parsed, rx_next, rx_rest}
use fido2_manage.GetAssert.Request.{Key, wants_token, fido_dev_get_assert_tx}
use fido2_manage.GetAssert.Reply.{
  Statement, blank_statement, parse_assert_reply, adjust_assert_count,
}

unfoldable pub fido_get_next_assert_tx : Calls → Dev → Try (Unit {0})
fido_get_next_assert_tx c d = try err_tx (fido_tx c.driver d cmd_cbor (0x08 ∷ []))

-- The list starts with room for a single statement.
abbrev pub statements : Calls → Decoder → Kind Statement
statements c dec = record {
  blank = blank_statement;
  start = record { ptr = blank_statement ∷ []; n_alloc = 1; n_rx = 0 };
  count = adjust_assert_count;
  parse = parse_assert_reply c.cbor dec;
  ask = fido_get_next_assert_tx;
}

unfoldable pub fido_dev_get_assert_rx : Calls → Decoder → Dev → Try (Listing Statement)
fido_dev_get_assert_rx c dec d = do
  msg ← receive c d
  l ← give_ret (
      cbor_parse_reply c.cbor msg adjust_assert_count
        (record { ptr = blank_statement ∷ []; n_alloc = 1; n_rx = 0 }))
  first_parsed (statements c dec) c msg l

unfoldable pub fido_get_next_assert_rx :
    Calls → Decoder → Dev → Listing Statement → Try (Listing Statement)
fido_get_next_assert_rx c dec = rx_next (statements c dec) c

-- The loop asks by `fido_get_next_assert_tx` and receives by `fido_get_next_assert_rx`.
unfoldable pub fido_dev_get_assert_wait :
    Calls → Decoder → Dev → Assert → Key → Chars → Try (Listing Statement)
fido_dev_get_assert_wait c dec d a key pin = do
  fido_dev_get_assert_tx c d a key pin
  l ← fido_dev_get_assert_rx c dec d
  rx_rest (statements c dec) (suc l.n_alloc) c d l

abbrev pub with_secret : Statement → Option (List ℕ) → Option Statement
with_secret r none = none
with_secret r (some secret) = some (record r { hmac_secret = some secret })

abbrev pub decrypt_one : Calls → Dev → List ℕ → Statement → Option (List ℕ) → Option Statement
decrypt_one c d key r none = some r
decrypt_one c d key r (some enc) = with_secret r (aes256_cbc_dec c d key enc)

abbrev pub cons? : Option Statement → Option (List Statement) → Option (List Statement)
cons? none rs = none
cons? (some r) none = none
cons? (some r) (some rs) = some (r ∷ rs)

-- All of `stmt_cnt` statements.
unfoldable pub decrypt_hmac_secrets :
    Calls → Dev → List ℕ → List Statement → Option (List Statement)
decrypt_hmac_secrets c d key [] = some []
decrypt_hmac_secrets c d key (r ∷ rs) =
    cons? (decrypt_one c d key r r.ext.hmac_secret_enc) (decrypt_hmac_secrets c d key rs)

-- The secrets are decrypted if the extension was asked for.
abbrev pub decrypted : Calls → Dev → Assert → Key → Listing Statement → Option (Listing Statement)
decrypted c d a none l = if has_ext a.ext_mask ext_hmac_secret then none else some l
decrypted c d a (some k) l =
    if has_ext a.ext_mask ext_hmac_secret
    then Option.map (λ rs. record l { ptr = rs }) (decrypt_hmac_secrets c d k.1 l.ptr)
    else some l

-- What the assertion holds afterwards: the statements of a FIDO2 device, or all of it over U2F.
pub data Got : Type 0 where
  by_fido2 : Listing Statement → Got
  by_u2f : Assert → Got

abbrev pub coded : ℤ × Assert → Ret Got
coded (r, fa) = if eqb_ℤ r fido_ok then val (by_u2f fa) else err r

abbrev pub over_u2f : U2f.Calls → Dev → Assert → Try Got
over_u2f u d a w = Platform.continue (λ p. Platform.return (coded p)) (u2f_authenticate u d a w)

abbrev pub wants_key : Dev → Assert → Chars → Bool
wants_key d a pin = wants_token d a pin || has_ext a.ext_mask ext_hmac_secret

abbrev pub get_key : Calls → Dev → Assert → Chars → Try Key
get_key c d a pin =
    if wants_key d a pin then (do k ← fido_do_ecdh c d; give (some k)) else give none

abbrev pub over_fido2 : Calls → Decoder → Dev → Assert → Chars → Try Got
over_fido2 c dec d a pin = do
  key ← get_key c d a pin
  l ← fido_dev_get_assert_wait c dec d a key pin
  l' ← try_option err_internal (decrypted c d a key l)
  give (by_fido2 l')

unfoldable pub fido_dev_get_assert : Calls → U2f.Calls → Dev → Assert → Chars → Try Got
fido_dev_get_assert c u d a pin = with_timeout d (do
  rp_id ← try_option err_invalid_argument a.rp_id
  cdh ← try_option err_invalid_argument a.cdh
  (if fido_dev_is_fido2 d
      then over_fido2 c u.decoder d a pin
      else if is_set pin || not (a.ext_mask == 0)
      then throw err_unsupported_option
      else over_u2f u d a))

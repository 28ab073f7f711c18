-- ===== src/U2f.antt =====
-- src/u2f.c: authenticators that speak U2F. A command is an APDU in a message, which is sent again
-- as long as the device answers that the user has yet to touch it.
pub mod Authenticate
pub mod Delay
pub mod Wait
pub mod Known
pub mod Single
pub mod Allowed
pub mod Reply
pub mod Verified
pub mod Touch
mod Tests
use fido2_manage.Prelude.{
  ℕ, zero, suc, ◌+◌, ◌-◌, ◌*◌, ◌/◌, ◌%◌, ◌^◌, Bool, true, false, not, ◌&&◌, ◌||◌, List, [], ◌∷◌,
  ◌++◌, Option, none, some, length, take, drop, replicate, get_or, ltb, ◌==◌, ltb_ℤ, ℤ, pos, negsuc,
  pos_part, ◌-ℤ◌, if◌then◌else◌,
}
use fido2_manage.Platform.{continue, World, ok, fail, hang, M, failure}
use fido2_manage.Err.{err_tx, err_rx, err_invalid_argument, err_internal}
use fido2_manage.Try.{Ret, val, err, Try, ◌>>=◌, ◌>>◌, give, throw, try, try_option}
use fido2_manage.Device.{Dev, Driver}
use fido2_manage.Blob.{Blob, blob_bytes}
use fido2_manage.Buf.{fido_buf_read}
use fido2_manage.Apdu.{Apdu, iso7816_new, iso7816_add, apdu_bytes}
use fido2_manage.Io.{fido_tx, fido_rx}
use fido2_manage.Assert.Stmts.{Decoder}

-- Constants of src/fido/param.h and src/u2f.c.
abbrev pub cmd_msg : ℕ
cmd_msg = 0x03

abbrev pub u2f_cmd_register : ℕ
u2f_cmd_register = 0x01

abbrev pub u2f_cmd_auth : ℕ
u2f_cmd_auth = 0x02

abbrev pub u2f_auth_sign : ℕ
u2f_auth_sign = 0x03

abbrev pub u2f_auth_check : ℕ
u2f_auth_check = 0x07

abbrev pub u2f_pace_ms : ℕ
u2f_pace_ms = 100

abbrev pub sw_conditions_not_satisfied : ℕ
sw_conditions_not_satisfied = 0x6985

abbrev pub sw_wrong_data : ℕ
sw_wrong_data = 0x6a80

abbrev pub sw_no_error : ℕ
sw_no_error = 0x9000

abbrev pub fido_maxmsg : ℕ
fido_maxmsg = 2048

-- What u2f.c calls: the driver, the system's `usleep`, SHA-256 (`none` if it fails), and libcbor.
pub record Calls : Type 0 where
  pub driver : Driver
  pub usleep : ℕ → M (Unit {0})
  pub sha256 : List ℕ → Option (List ℕ)
  pub decoder : Decoder

-- `*ms_remain -= (int)ms`, if there is a limit.
abbrev pub take_off : ℕ → M (Unit {0})
take_off ms w = (ok tt, if ltb_ℤ w.ms (pos 0) then w else record w { ms = w.ms -ℤ pos ms })

-- `unsigned int`: UINT_MAX / 1000 is 4294967.
unfoldable pub delay_ms : Calls → ℕ → M (Unit {0})
delay_ms c ms w =
    let short = not (ltb_ℤ w.ms (pos 0)) && ltb (pos_part w.ms) ms in
    let ms' = if short then pos_part w.ms else ms in
    if ltb 4294967 ms' then (fail, w) else continue (λ _. take_off ms') (c.usleep (ms' * 1000) w)

-- `(reply[i] << 8) | reply[i + 1]`; the bytes do not overlap.
abbrev pub status_at : ℕ → List ℕ → ℕ
status_at i reply = get_or reply i 0 * 256 + get_or reply (i + 1) 0

abbrev pub last_status : List ℕ → ℕ
last_status reply = status_at (length reply - 2) reply

-- The four calls of `iso7816_add` on a new APDU of class 0, for an authentication.
unfoldable pub auth_apdu : ℕ → List ℕ → List ℕ → List ℕ → Try Apdu
auth_apdu p1 challenge rp_id_hash key = do
  let len = (64 + 1 + length key % 256) % 2 ^ 16
  a1 ← try_option err_internal (iso7816_add (iso7816_new 0 u2f_cmd_auth p1 len) challenge)
  a2 ← try_option err_internal (iso7816_add a1 rp_id_hash)
  a3 ← try_option err_internal (iso7816_add a2 (length key % 256 ∷ []))
  try_option err_internal (iso7816_add a3 (take (length key % 256) key))

abbrev pub key_status : ℕ → Try Bool
key_status sw =
    if sw == sw_conditions_not_satisfied
    then give true
    else if sw == sw_wrong_data
    then give false
    else throw err_internal

-- Whether the device knows the key; it is asked to check and not to sign.
unfoldable pub key_lookup : Calls → Dev → Option (List ℕ) → Blob → Try Bool
key_lookup c d rp_id key_id = do
  let key = blob_bytes key_id
  id ← try_option err_invalid_argument (if ltb 255 (length key) then none else rp_id)
  rp_id_hash ← try_option err_internal (c.sha256 id)
  a ← auth_apdu u2f_auth_check (replicate 32 0xff) rp_id_hash key
  try err_tx (fido_tx c.driver d cmd_msg (apdu_bytes a))
  reply ← try err_rx (fido_rx c.driver d cmd_msg fido_maxmsg)
  if length reply == 2 then key_status (status_at 0 reply) else throw err_rx

abbrev pub long_enough : List ℕ → Try (Unit {0})
long_enough reply = if ltb (length reply) 2 then throw err_rx else give tt

-- The loops of `send_dummy_register`, `do_auth` and `u2f_register`, which are the same. A round
-- takes an outcome of the driver's reads.
unfoldable pub exchange : ℕ → Calls → Dev → List ℕ → Try (List ℕ)
exchange zero c d msg w = (hang, w)
exchange (suc fuel) c d msg w =
    (do
      try err_tx (fido_tx c.driver d cmd_msg msg)
      reply ← try err_rx (fido_rx c.driver d cmd_msg fido_maxmsg)
      long_enough reply
      try err_rx (delay_ms c u2f_pace_ms)
      elim (status_at 0 reply == sw_conditions_not_satisfied) [
        | true ↦ exchange fuel c d msg
        | false ↦ give reply
      ])
      w

unfoldable pub exchange_all : Calls → Dev → List ℕ → Try (List ℕ)
exchange_all c d msg w = exchange (suc (length w.incoming)) c d msg w

-- A registration with a challenge and an application.
unfoldable pub register_apdu : List ℕ → List ℕ → Try Apdu
register_apdu challenge application = do
  a1 ← try_option err_internal (iso7816_add (iso7816_new 0 u2f_cmd_register 0 64) challenge)
  try_option err_internal (iso7816_add a1 application)

unfoldable pub send_dummy_register : Calls → Dev → Try (Unit {0})
send_dummy_register c d = do
  a ← register_apdu (replicate 32 0xff) (replicate 32 0xff)
  _ ← exchange_all c d (apdu_bytes a)
  give tt

-- The bytes of a zeroed `fido_authdata_t`; `sigcount` is as it was received.
unfoldable pub authdata_fake : Calls → List ℕ → List ℕ → List ℕ → Option (List ℕ)
authdata_fake c rp_id flags sigcount = elim (c.sha256 rp_id) [
  | none ↦ none
  | some h ↦
      let ser = c.decoder.serialize (h ++ (flags ++ sigcount)) in
      if length ser == 0 then none else some ser
]

-- The signature and the authenticator data. All that follows the counter is the signature.
unfoldable pub parse_auth_reply : Calls → List ℕ → List ℕ → Try (List ℕ × List ℕ)
parse_auth_reply c rp_id reply = do
  body ← try_option err_rx (
      if ltb (length reply) 2 || not (last_status reply == sw_no_error)
      then none
      else some (take (length reply - 2) reply))
  (flags, rest) ← try_option err_rx (fido_buf_read body 1)
  (sigcount, sig) ← try_option err_rx (fido_buf_read rest 4)
  ad ← try_option err_rx (authdata_fake c rp_id flags sigcount)
  give (sig, ad)

unfoldable pub do_auth : Calls → Dev → Blob → Option (List ℕ) → Blob → Try (List ℕ × List ℕ)
do_auth c d cdh rp_id key_id = do
  let key = blob_bytes key_id
  id ←
      try_option err_invalid_argument
        (if not (length (blob_bytes cdh) == 32) || ltb 255 (length key) then none else rp_id)
  rp_id_hash ← try_option err_internal (c.sha256 id)
  a ← auth_apdu u2f_auth_sign (blob_bytes cdh) rp_id_hash key
  reply ← exchange_all c d (apdu_bytes a)
  parse_auth_reply c id reply

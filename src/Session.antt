-- ===== src/Session.antt =====
-- src/dev.c: the life cycle of a device handle. Opening runs CTAPHID_INIT on the broadcast channel,
-- takes the channel that the device assigns, and asks a FIDO2 device for its features.
pub mod Transmit
pub mod Close
pub mod Open
mod Tests
use fido2_manage.Prelude.{
  ℕ, ◌+◌, ◌-◌, ◌*◌, ◌^◌, Bool, true, false, not, ◌&&◌, ◌||◌, List, [], ◌∷◌, ◌++◌, Option, none,
  some, length, drop, bit_and, bit_or, get_or, le32, le64, rd_le32, ltb, ltb_ℤ, eqb_ℤ, ◌==◌, ℤ, pos,
  negsuc, if◌then◌else◌,
}
use fido2_manage.Err.{fido_ok, err_tx, err_rx, err_invalid_argument, err_internal}
use fido2_manage.Platform.{World, ok, M, ◌>>=◌, ◌>>◌, return, attempt}
use fido2_manage.Device.{CtapInfo, Dev, Driver}
use fido2_manage.Io.{fido_tx, fido_rx}
use fido2_manage.Flags.{CborInfo, set_flags}

-- Constants of src/fido/param.h.
abbrev pub cid_broadcast : ℕ
cid_broadcast = 0xffffffff

abbrev pub cmd_init : ℕ
cmd_init = 0x06

abbrev pub cmd_cancel : ℕ
cmd_cancel = 0x11

abbrev pub min_report_len : ℕ
min_report_len = 8

abbrev pub max_report_len : ℕ
max_report_len = 64

abbrev pub cap_cbor : ℕ
cap_cbor = 0x04

-- What dev.c calls: the driver's functions, and whether open and close are set; the system's
-- random numbers; the lengths of the reports of an open HID device; and the request for the
-- device's features (src/info.c), which gives a code and what was decoded. `partial_reply` is what
-- a failed read leaves of `dev->attr`, and `no_fallback` is `disable_u2f_fallback`.
pub record Host : Type 0 where
  pub driver : Driver
  pub has_open : Bool
  pub has_close : Bool
  pub io_open : M Bool
  pub io_close : M (Unit {0})
  pub get_random : M (Option ℕ)
  pub report_in_len : ℕ
  pub report_out_len : ℕ
  pub get_cbor_info : Dev → M (ℤ × CborInfo)
  pub partial_reply : CtapInfo → CtapInfo
  pub no_fallback : Bool

-- The device, and how many handles the driver gave out and did not get back.
pub record Session : Type 0 where
  pub dev : Dev
  pub handles : ℕ

-- `fido_ctap_info_t` is packed: 17 bytes.
abbrev pub attr_bytes : CtapInfo → List ℕ
attr_bytes a =
    le64 a.nonce ++ le32 a.cid ++ (a.protocol ∷ a.major ∷ a.minor ∷ a.build ∷ a.flags ∷ [])

abbrev pub attr_of : List ℕ → CtapInfo
attr_of bs = record {
  nonce = rd_le32 bs + rd_le32 (drop 4 bs) * 2 ^ 32;
  cid = rd_le32 (drop 8 bs);
  protocol = get_or bs 12 0;
  major = get_or bs 13 0;
  minor = get_or bs 14 0;
  build = get_or bs 15 0;
  flags = get_or bs 16 0;
}

unfoldable pub fido_dev_is_fido2 : Dev → Bool
fido_dev_is_fido2 dev = not (bit_and dev.attr.flags cap_cbor == 0)

-- `(uint8_t)~FIDO_CAP_CBOR` is 0xfb.
unfoldable pub fido_dev_force_u2f : Dev → Dev
fido_dev_force_u2f dev = record dev {
  attr = record dev.attr { flags = bit_and dev.attr.flags 0xfb };
  flags = 0;
}

unfoldable pub fido_dev_force_fido2 : Dev → Dev
fido_dev_force_fido2 dev = record dev {
  attr = record dev.attr { flags = bit_or dev.attr.flags cap_cbor };
}

-- The labels `fail` of both halves of opening.
unfoldable pub fail_open : Host → ℤ → Session → M (ℤ × Session)
fail_open host r s =
    host.io_close
    >> return (r, record { dev = record s.dev { io_handle = false }; handles = s.handles - 1 })

unfoldable pub set_report_lens : Host → Dev → Dev
set_report_lens host dev =
    if dev.io_own
    then record dev { rx_len = max_report_len; tx_len = max_report_len }
    else record dev { rx_len = host.report_in_len; tx_len = host.report_out_len }

abbrev pub invalid_report_len : ℕ → Bool
invalid_report_len n = ltb n min_report_len || ltb max_report_len n

-- `if (fido_tx(dev, CTAP_CMD_INIT, &dev->nonce, sizeof(dev->nonce), ms) < 0)`
abbrev pub sent_init : Host → Session → Option (Unit {0}) → M (ℤ × Session)
sent_init host s none = fail_open host err_tx s
sent_init host s (some _) = return (fido_ok, s)

-- From the driver's handle on.
unfoldable pub opened_tx : Host → Session → M (ℤ × Session)
opened_tx host s =
    let d = set_report_lens host s.dev in
    let s' = record s { dev = d } in
    if invalid_report_len d.rx_len
    then fail_open host err_rx s'
    else if invalid_report_len d.tx_len
    then fail_open host err_tx s'
    else do t ← attempt (fido_tx host.driver d cmd_init (le64 d.nonce)); sent_init host s' t

abbrev pub got_handle : Host → Session → Bool → M (ℤ × Session)
got_handle host s false = return (err_internal, s)
got_handle host s true =
    opened_tx host (record { dev = record s.dev { io_handle = true }; handles = s.handles + 1 })

-- The driver's handle, if it gives one.
unfoldable pub open_handle : Host → Session → M (ℤ × Session)
open_handle host s = do h ← host.io_open; got_handle host s h

abbrev pub with_nonce : Host → Session → Option ℕ → M (ℤ × Session)
with_nonce host s none = return (err_internal, s)
with_nonce host s (some n) = open_handle host (record s { dev = record s.dev { nonce = n } })

unfoldable pub fido_dev_open_tx : Host → Session → M (ℤ × Session)
fido_dev_open_tx host s =
    if s.dev.io_handle
    then return (err_invalid_argument, s)
    else if not host.has_open || not host.has_close
    then return (err_invalid_argument, s)
    else if not (s.dev.cid == cid_broadcast)
    then return (err_invalid_argument, s)
    else do n ← host.get_random; with_nonce host s n

-- `if (fido_dev_is_fido2(dev) && info != NULL) dev->maxmsgsize = ...`, with `info` set.
abbrev pub set_maxmsgsize : CborInfo → Session → Session
set_maxmsgsize info s =
    if fido_dev_is_fido2 s.dev
    then record s { dev = record s.dev { maxmsgsize = info.maxmsgsiz } }
    else s

-- What a FIDO2 device answers to the request for its features.
abbrev pub use_info : Host → Session → ℤ × CborInfo → M (ℤ × Session)
use_info host s (r, info) =
    if eqb_ℤ r fido_ok
    then return (fido_ok, set_maxmsgsize info (record s { dev = set_flags s.dev info }))
    else if host.no_fallback
    then fail_open host r s
    else return (fido_ok, set_maxmsgsize info (record s { dev = fido_dev_force_u2f s.dev }))

-- Once the device echoed the nonce.
unfoldable pub use_channel : Host → Session → M (ℤ × Session)
use_channel host s =
    let s' = record s { dev = record s.dev { flags = 0; cid = s.dev.attr.cid } } in
    if fido_dev_is_fido2 s'.dev
    then host.get_cbor_info s'.dev >>= use_info host s'
    else return (fido_ok, s')

abbrev pub set_attr : Session → CtapInfo → Session
set_attr s a = record s { dev = record s.dev { attr = a } }

abbrev pub received_init : Host → Session → Option (List ℕ) → M (ℤ × Session)
received_init host s none = fail_open host err_rx (set_attr s (host.partial_reply s.dev.attr))
received_init host s (some bs) =
    let s' = set_attr s (attr_of (bs ++ drop (length bs) (attr_bytes s.dev.attr))) in
    if not (length bs == 17) || not (s'.dev.attr.nonce == s'.dev.nonce)
    then fail_open host err_rx s'
    else use_channel host s'

unfoldable pub fido_dev_open_rx : Host → Session → M (ℤ × Session)
fido_dev_open_rx host s = do
  r ← attempt (fido_rx host.driver s.dev cmd_init 17)
  received_init host s r

abbrev pub then_receive : Host → ℤ × Session → M (ℤ × Session)
then_receive host (r, s) = if eqb_ℤ r fido_ok then fido_dev_open_rx host s else return (r, s)

unfoldable pub fido_dev_open_wait : Host → Session → M (ℤ × Session)
fido_dev_open_wait host s = fido_dev_open_tx host s >>= then_receive host

-- `int ms = dev->timeout_ms;`
abbrev pub start_budget : Dev → World → World
start_budget dev w = record w { ms = dev.timeout_ms }

unfoldable pub fido_dev_open : Host → Session → M (ℤ × Session)
fido_dev_open host s w = fido_dev_open_wait host s (start_budget s.dev w)

-- ===== src/Session/Close.antt =====
-- src/dev.c: closing and cancelling, and the making of a device.
use fido2_manage.Prelude.{
  ◌-◌, Bool, false, not, ◌||◌, [], Option, none, some, ltb_ℤ, ℤ, negsuc, if◌then◌else◌,
}
use fido2_manage.Err.{fido_ok, err_tx, err_invalid_argument}
use fido2_manage.Platform.{M, ◌>>=◌, ◌>>◌, return, attempt}
use fido2_manage.Device.{Dev}
use fido2_manage.Io.{fido_tx}
use fido2_manage.Session.{Host, Session, cid_broadcast, cmd_cancel, fido_dev_is_fido2, start_budget}

unfoldable pub fido_dev_close : Host → Session → M (ℤ × Session)
fido_dev_close host s =
    if not s.dev.io_handle || not host.has_close
    then return (err_invalid_argument, s)
    else host.io_close
      >> return (
        fido_ok,
        record {
          dev = record s.dev { io_handle = false; cid = cid_broadcast };
          handles = s.handles - 1;
        },
      )

abbrev pub sent_cancel : Option (Unit {0}) → M ℤ
sent_cancel none = return err_tx
sent_cancel (some _) = return fido_ok

unfoldable pub fido_dev_cancel : Host → Session → M ℤ
fido_dev_cancel host s w =
    if not (fido_dev_is_fido2 s.dev)
    then return err_invalid_argument w
    else (attempt (fido_tx host.driver s.dev cmd_cancel []) >>= sent_cancel) (start_budget s.dev w)

-- A zeroed structure, but for the channel and the timeout.
unfoldable pub fido_dev_new : Dev
fido_dev_new = record {
  nonce = 0;
  attr = record { nonce = 0; cid = 0; protocol = 0; major = 0; minor = 0; build = 0; flags = 0 };
  cid = cid_broadcast;
  io_handle = false;
  io_own = false;
  rx_len = 0;
  tx_len = 0;
  flags = 0;
  maxmsgsize = 0;
  timeout_ms = negsuc 0;
}

-- `io_own` is set for a device with transport functions.
unfoldable pub fido_dev_new_with_info : Bool → Bool → Dev
fido_dev_new_with_info has_tx has_rx = record fido_dev_new { io_own = has_tx || has_rx }

unfoldable pub fido_dev_set_timeout : Dev → ℤ → ℤ × Dev
fido_dev_set_timeout dev ms =
    if ltb_ℤ ms (negsuc 0)
    then (err_invalid_argument, dev)
    else (fido_ok, record dev { timeout_ms = ms })

-- ===== src/Session/Tests.antt =====
-- A run of opening and closing, and the theorems on it at this run.
use fido2_manage.Prelude.{ℕ, ◌≡◌, refl, true, false, List, [], ◌∷◌, ◌++◌, none, some, replicate}
use fido2_manage.Err.{fido_ok, err_rx, err_invalid_argument}
use fido2_manage.Platform.{World, ok, return, io_read, io_write}
use fido2_manage.Time.{time_now, time_delta, elapsed}
use fido2_manage.Device.{Dev}
use fido2_manage.Ends.{Ends, return-Ends}
use fido2_manage.Io.{
  fido_tx, fido_rx, tx, tx_preamble, tx_loop, tx_frame, send_pkt, tx_pkt, rx, rx_preamble,
  rx_payload, rx_loop, rx_frame,
}
use fido2_manage.Io.Tests.{idle}
use fido2_manage.Flags.{
  CborInfo, client_pin, set_flags, set_extension_flags, set_option_flags, set_protocol_flags,
}
use fido2_manage.Session.{
  Host, Session, fido_dev_open, fido_dev_open_wait, fido_dev_open_tx, fido_dev_open_rx, open_handle,
  opened_tx, set_report_lens, use_channel, fido_dev_is_fido2, fail_open,
}
use fido2_manage.Session.Close.{fido_dev_close, fido_dev_new}
use fido2_manage.Session.Transmit.{Lively, IsOpen, Outcome}
use fido2_manage.Session.Open.{fido_dev_open-Outcome, Reopens, fido_dev_open-Reopens}

abbrev features : CborInfo
features = record {
  extensions = [];
  options = (client_pin, true) ∷ [];
  protocols = 1 ∷ 2 ∷ [];
  maxmsgsiz = 1200;
}

abbrev token : Host
token = record {
  driver = record { has_read = true; has_write = true; transport_tx = none; transport_rx = none };
  has_open = true;
  has_close = true;
  io_open = return true;
  io_close = return tt;
  get_random = return (some 0x0807060504030201);
  report_in_len = 64;
  report_out_len = 64;
  get_cbor_info = λ d. return (fido_ok, features);
  partial_reply = λ a. a;
  no_fallback = false;
}

token-Lively : Lively token
token-Lively = record {
  io_open = λ w. return-Ends _ w tt;
  io_close = λ w. return-Ends _ w tt;
  get_random = λ w. return-Ends _ w tt;
  get_cbor_info = λ d w. return-Ends _ w tt;
  transport_tx = refl;
  transport_rx = refl;
}

abbrev fresh : Session
fresh = record { dev = fido_dev_new; handles = 0 }

-- The answer to CTAPHID_INIT: the nonce, channel 0x0d0c0b0a, and a device that speaks CBOR.
abbrev reply : List ℕ
reply =
    (0xff ∷ 0xff ∷ 0xff ∷ 0xff ∷ 0x86 ∷ 0 ∷ 17 ∷ [])
    ++ (1 ∷ 2 ∷ 3 ∷ 4 ∷ 5 ∷ 6 ∷ 7 ∷ 8 ∷ 0x0a ∷ 0x0b ∷ 0x0c ∷ 0x0d ∷ 2 ∷ 5 ∷ 4 ∷ 3 ∷ 0x05 ∷ [])
    ++ replicate 40 0

abbrev answering : World
answering = record idle { incoming = some reply ∷ [] }

abbrev opened_dev : Dev
opened_dev = record fido_dev_new {
  nonce = 0x0807060504030201;
  attr = record {
    nonce = 0x0807060504030201;
    cid = 0x0d0c0b0a;
    protocol = 2;
    major = 5;
    minor = 4;
    build = 3;
    flags = 5;
  };
  cid = 0x0d0c0b0a;
  io_handle = true;
  rx_len = 64;
  tx_len = 64;
  flags = 0x31;
  maxmsgsize = 1200;
}

open_runs :
    (fido_dev_open token fresh answering).0 ≡ ok (fido_ok, record { dev = opened_dev; handles = 1 })
unfolding fido_dev_new fido_dev_open fido_dev_open_wait fido_dev_open_tx fido_dev_open_rx
    open_handle opened_tx set_report_lens use_channel fido_dev_is_fido2 fail_open set_flags
    set_extension_flags set_option_flags set_protocol_flags fido_tx fido_rx tx tx_preamble tx_loop
    tx_frame send_pkt tx_pkt rx rx_preamble rx_payload rx_loop rx_frame io_read io_write time_now
    time_delta elapsed
open_runs = refl

fido_dev_open-Outcome_example :
    Ends (λ a v. Outcome token 0 (IsOpen 0) a) (fido_dev_open token fresh answering)
unfolding fido_dev_new
fido_dev_open-Outcome_example = fido_dev_open-Outcome token fresh answering token-Lively refl refl

fido_dev_open-Reopens_example :
    Ends (λ a v. Outcome token 0 (Reopens token 0 v) a) (fido_dev_open token fresh answering)
unfolding fido_dev_new
fido_dev_open-Reopens_example =
    fido_dev_open-Reopens token fresh answering token-Lively refl refl refl

-- The device fails to report its features, and the fallback to U2F is disabled.
abbrev strict_token : Host
strict_token = record token { no_fallback = true; get_cbor_info = λ d. return (err_rx, features) }

-- The handle is closed, and the device stays on the channel that it assigned.
abbrev left_over : Session
left_over = record {
  dev = record opened_dev { io_handle = false; flags = 0; maxmsgsize = 0 };
  handles = 0;
}

strict_open_fails : (fido_dev_open strict_token fresh answering).0 ≡ ok (err_rx, left_over)
unfolding fido_dev_new fido_dev_open fido_dev_open_wait fido_dev_open_tx fido_dev_open_rx
    open_handle opened_tx set_report_lens use_channel fido_dev_is_fido2 fail_open set_flags
    set_extension_flags set_option_flags set_protocol_flags fido_tx fido_rx tx tx_preamble tx_loop
    tx_frame send_pkt tx_pkt rx rx_preamble rx_payload rx_loop rx_frame io_read io_write time_now
    time_delta elapsed
strict_open_fails = refl

-- It can be neither opened again nor closed.
left_over_refused :
    ((fido_dev_open strict_token left_over answering).0 ≡ ok (err_invalid_argument, left_over))
    × ((fido_dev_close strict_token left_over answering).0 ≡ ok (err_invalid_argument, left_over))
unfolding fido_dev_new fido_dev_open fido_dev_open_wait fido_dev_open_tx fido_dev_open_rx
    open_handle opened_tx set_report_lens use_channel fido_dev_is_fido2 fail_open set_flags
    set_extension_flags set_option_flags set_protocol_flags fido_tx fido_rx tx tx_preamble tx_loop
    tx_frame send_pkt tx_pkt rx rx_preamble rx_payload rx_loop rx_frame io_read io_write time_now
    time_delta elapsed fido_dev_close
left_over_refused = (refl, refl)

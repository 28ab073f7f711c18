-- ===== src/Io/Tests.antt =====
-- Runs of the framing, and its theorems at concrete messages.
use fido2_manage.Prelude.{
  ℕ, ◌≤◌, ◌≡◌, ◌≢◌, refl, true, false, List, [], ◌∷◌, none, some, length, pos, arith, replicate,
}
use fido2_manage.Platform.{World, ok, fail, hang, io_write, io_read}
use fido2_manage.Time.{elapsed, time_now, time_delta}
use fido2_manage.Time.Budget.{at}
use fido2_manage.Device.{Dev, CtapInfo}
use fido2_manage.Io.{
  tx, tx_preamble, tx_loop, tx_frame, send_pkt, tx_pkt, rx, rx_preamble, rx_payload, rx_loop,
  rx_frame, fido_tx,
}
use fido2_manage.Io.Send.{IsReady, Sends, packets, tx-Sends}
use fido2_manage.Io.RoundTrip.{rx-tx}
use fido2_manage.Io.Bounds.{rx_bounds}
use fido2_manage.Io.Total.{Stops, fido_tx-Stops}

abbrev pub blank_info : CtapInfo
blank_info = record { nonce = 0; cid = 0; protocol = 0; major = 0; minor = 0; build = 0; flags = 0 }

-- Reports of 8 bytes: one byte of a message in the first frame, three in each that follows.
abbrev pub small : Dev
small = record {
  nonce = 0;
  attr = blank_info;
  cid = 0x11223344;
  io_handle = true;
  io_own = false;
  rx_len = 8;
  tx_len = 8;
  flags = 0;
  maxmsgsize = 0;
  timeout_ms = pos 0;
}

abbrev pub idle : World
idle = record {
  sent = [];
  accepts = λ s p. some (length p);
  incoming = [];
  clock = λ n. some (at 5 0);
  ticks = 0;
  ms = pos 1000;
}

abbrev message : List ℕ
message = 10 ∷ 20 ∷ 30 ∷ 40 ∷ 50 ∷ []

tx_sends_three :
    (tx small 0x10 message idle).1.sent
    ≡ (0 ∷ 0x44 ∷ 0x33 ∷ 0x22 ∷ 0x11 ∷ 0x90 ∷ 0 ∷ 5 ∷ 10 ∷ [])
      ∷ (0 ∷ 0x44 ∷ 0x33 ∷ 0x22 ∷ 0x11 ∷ 0 ∷ 20 ∷ 30 ∷ 40 ∷ [])
      ∷ (0 ∷ 0x44 ∷ 0x33 ∷ 0x22 ∷ 0x11 ∷ 1 ∷ 50 ∷ 0 ∷ 0 ∷ [])
      ∷ []
unfolding tx tx_preamble tx_loop tx_frame send_pkt tx_pkt io_write time_now time_delta elapsed
tx_sends_three = refl

abbrev keepalive : List ℕ
keepalive = 0x44 ∷ 0x33 ∷ 0x22 ∷ 0x11 ∷ 0xbb ∷ 0 ∷ 1 ∷ 2 ∷ []

-- The three packets behind a keep-alive.
abbrev waiting : World
waiting = record idle {
  incoming =
      some keepalive
      ∷ some (0x44 ∷ 0x33 ∷ 0x22 ∷ 0x11 ∷ 0x90 ∷ 0 ∷ 5 ∷ 10 ∷ [])
      ∷ some (0x44 ∷ 0x33 ∷ 0x22 ∷ 0x11 ∷ 0 ∷ 20 ∷ 30 ∷ 40 ∷ [])
      ∷ some (0x44 ∷ 0x33 ∷ 0x22 ∷ 0x11 ∷ 1 ∷ 50 ∷ 0 ∷ 0 ∷ [])
      ∷ none
      ∷ [];
}

rx_joins : (rx small 0x10 2048 waiting).0 ≡ ok message
unfolding rx rx_preamble rx_payload rx_loop rx_frame io_read time_now time_delta elapsed
rx_joins = refl

-- A buffer of four bytes is too short.
rx_refuses : (rx small 0x10 4 waiting).0 ≡ fail
unfolding rx rx_preamble rx_payload rx_loop rx_frame io_read time_now time_delta elapsed
rx_refuses = refl

idle-IsReady : IsReady idle
unfolding elapsed
idle-IsReady = record { takes = λ s p. refl; steady = λ n. (at 5 0, 0, refl, refl) }

tx-Sends_example : Sends idle (packets small 0x10 message) tt (tx small 0x10 message idle)
tx-Sends_example =
    tx-Sends small idle 0x10 message idle-IsReady (omega arith) (omega arith) (omega arith)

rx-tx_example :
    ((tx small 0x10 message idle).0 ≡ ok tt)
    × ((rx small 0x10 2048 waiting).0 ≡ ok message)
    × ((rx small 0x10 2048 waiting).1.incoming ≡ none ∷ [])
unfolding tx tx_preamble tx_loop tx_frame send_pkt tx_pkt io_write time_now time_delta elapsed
rx-tx_example =
    rx-tx small idle waiting 0x10 2048 message (keepalive ∷ []) (none ∷ []) idle-IsReady refl
      idle-IsReady.steady (omega arith) refl (omega arith) (omega arith) (omega arith) (omega arith)
      (omega arith) (omega arith) (omega arith) ((refl, refl), tt) refl

rx_bounds_example :
    ((rx small 0x10 4 waiting).0 ≢ hang)
    × ((buf : List ℕ) → (rx small 0x10 4 waiting).0 ≡ ok buf → length buf ≤ 4)
rx_bounds_example = rx_bounds small 0x10 4 waiting (omega arith)

-- The message is longer than 128 continuation frames of 3 bytes can carry.
fido_tx-Stops_example : Stops (
    fido_tx
      (record { has_read = true; has_write = true; transport_tx = none; transport_rx = none })
      small
      0x10
      (replicate 400 7)
      idle)
fido_tx-Stops_example =
    fido_tx-Stops
      (record { has_read = true; has_write = true; transport_tx = none; transport_rx = none }) small
      0x10 (replicate 400 7) idle refl

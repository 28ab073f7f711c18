-- ===== src/Io/RoundTrip.antt =====
-- `tx` and `rx` fit together: a message that one end sends is what the other end receives.
use fido2_manage.Prelude.{
  ℕ, ◌+◌, ◌-◌, ◌*◌, ◌^◌, ◌≤◌, ◌<◌, ◌≡◌, ◌≢◌, sym, ap, ◌∙◌, List, [], ◌++◌, map, Option, some,
  length, All,
}
use fido2_manage.Platform.{World, ok}
use fido2_manage.Time.Steady.{SteadyClock}
use fido2_manage.Device.{Dev}
use fido2_manage.Io.{tx, rx}
use fido2_manage.Io.Send.{IsReady, IsSized, packets, tx-Sends}
use fido2_manage.Io.Receive.{delivered, peer}
use fido2_manage.Io.Message.{IsNoise, rx-Reads}

peer_self : (d : Dev) → d.tx_len ≡ d.rx_len → peer d ≡ d
peer_self d h = ap (λ n. record d { tx_len = n }) (sym h)

-- Take a message of 1 to 65535 bytes that 128 continuation frames can hold, a command below 128
-- other than the keep-alive's, and reports of one length from 8 to 64 bytes both ways. If the driver
-- takes every packet whole and both clocks are steady, `tx` succeeds. A reader of the same channel
-- with room for the message, which finds those packets behind any number of keep-alives and foreign
-- reports, gets exactly the message from `rx`, and what follows the packets is left to be read.
pub rx-tx :
    (d : Dev) (w v : World) (cmd count : ℕ) (buf : List ℕ) (noise : List (List ℕ))
    (more : List (Option (List ℕ)))
    → IsReady w
    → w.sent ≡ []
    → SteadyClock v.clock
    → IsSized d.tx_len
    → d.tx_len ≡ d.rx_len
    → d.cid < 2 ^ 32
    → cmd < 128
    → cmd ≢ 0x3b
    → 0 < length buf
    → length buf ≤ count
    → length buf < 2 ^ 16
    → length buf ≤ (d.tx_len - 7) + 128 * (d.tx_len - 5)
    → All (IsNoise d) noise
    → v.incoming ≡ map some noise ++ (delivered (tx d cmd buf w).1.sent ++ more)
    → ((tx d cmd buf w).0 ≡ ok tt)
      × ((rx d cmd count v).0 ≡ ok buf)
      × ((rx d cmd count v).1.incoming ≡ more)
rx-tx d w v cmd count buf noise more h h0 hv hs hr hc hd hk hp hn hl hf hz hi =
    let s = tx-Sends d w cmd buf h hs hp hf in
    let all : (tx d cmd buf w).1.sent ≡ packets (peer d) cmd buf =
      s.sent
      ∙ ap (λ l. l ++ packets d cmd buf) h0
      ∙ ap (λ e. packets e cmd buf) (sym (peer_self d hr)) in
    let r =
      rx-Reads d (rw (← hr) hs) hc cmd count buf noise more v hv hd hk hn hl (rw (← hr) hf) hz
        (rw (← all) hi) in
    (s.done, r.done, r.incoming)

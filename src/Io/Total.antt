-- ===== src/Io/Total.antt =====
-- `fido_tx` and `fido_rx` without transport functions end in every world.
use fido2_manage.Prelude.{
  ℕ, Option, min, zero, suc, ◌+◌, ◌%◌, ◌≤◌, ◌<◌, Bool, ==_iff, ◌≡◌, refl, true, false, not, ◌||◌,
  List, [], ◌∷◌, none, some, length, take, drop, bit_and, Bool-cases, inl, inr, ltb, ◌==◌,
  if◌then◌else◌, arith,
}
use fido2_manage.Platform.{
  of_option, Timespec, attempt, ◌>>=◌, World, Result, ok, fail, hang, M, attempt_result, continue,
  failure, return, io_write,
}
use fido2_manage.Time.{time_now, time_delta}
use fido2_manage.Device.{Dev, Driver, add_size, sub_size, uint16_max}
use fido2_manage.Io.{
  tx_pkt, send_pkt, tx_empty, tx_preamble, tx_frame, tx_loop, tx, fido_tx, fido_rx, count_or_zero,
  init_pkt, cont_pkt, fido_rx_cbor_status, status_of,
}
use fido2_manage.Ends.{
  Ends, time_now-Ends, time_delta-Ends, return-Ends, weaken-Ends, continue-Ends,
}
use fido2_manage.Io.Bounds.{rx-Ends}

-- A call that ends.
abbrev pub Stops : {A : Type 0} → Result A × World → Type 0
Stops r = Ends (λ a v. Unit) r

room_below : (seq : ℕ) → seq ≤ 128 → (bit_and seq 0x80 == 0) ≡ true → seq < 128
room_below seq h room = elim (Bool-cases (seq == 128)) [
  | inl e ↦
      let top : seq ≡ 128 = (==_iff seq 128).0 e in
      let no : (bit_and seq 0x80 == 0) ≡ false = rw top refl in absurd (ground (arith, no, room))
  | inr e ↦ ground (arith, e)
]

-- A call that ends and takes none of the outcomes of the driver's reads, which are `i`.
pub record Quiet {A : Type 0} (i : List (Option (List ℕ))) (r : Result A × World) : Type 0 where
  pub stops : Stops r
  pub incoming : r.1.incoming ≡ i

module _ (i : List (Option (List ℕ))) where
  failure-Quiet : {A : Type 0} (w : World) → w.incoming ≡ i → Quiet i (failure {A = A} w)
  failure-Quiet w q = record { stops = record { ends = λ e. cc; value = λ a e. tt }; incoming = q }

  pub return-Quiet : {A : Type 0} (a : A) (w : World) → w.incoming ≡ i → Quiet i (return a w)
  return-Quiet a w q = record { stops = return-Ends a w tt; incoming = q }

  pub continue-Quiet :
      {A B : Type 0} (f : A → M B) (r : Result A × World)
      → Quiet i r
      → ((a : A) (w : World) → w.incoming ≡ i → Quiet i (f a w))
      → Quiet i (continue f r)
  continue-Quiet f (ok a, w) h k = k a w h.incoming
  continue-Quiet f (fail, w) h k = failure-Quiet w h.incoming
  continue-Quiet f (hang, w) h k = absurd (h.stops.ends refl)

  attempt-Quiet : {A : Type 0} (r : Result A × World) → Quiet i r → Quiet i (attempt_result r)
  attempt-Quiet (ok a, w) h = return-Quiet (some a) w h.incoming
  attempt-Quiet (fail, w) h = return-Quiet none w h.incoming
  attempt-Quiet (hang, w) h = absurd (h.stops.ends refl)

  if-Quiet :
      {A : Type 0} (b : Bool) (x y : M A) (w : World)
      → Quiet i (x w)
      → Quiet i (y w)
      → Quiet i ((if b then x else y) w)
  if-Quiet true x y w h k = h
  if-Quiet false x y w h k = k

  time_now-Quiet : (w : World) → w.incoming ≡ i → Quiet i (time_now w)
  unfolding time_now
  time_now-Quiet w q = record {
    stops = weaken-Ends (time_now w) (time_now-Ends w) (λ a v p. tt);
    incoming = ground (arith, q);
  }

  time_delta-Quiet : (t : Timespec) (w : World) → w.incoming ≡ i → Quiet i (time_delta t w)
  unfolding time_delta
  time_delta-Quiet t w q = record {
    stops = weaken-Ends (time_delta t w) (time_delta-Ends t w) (λ a v p. tt);
    incoming = ground (arith, q);
  }

  of_option-Quiet :
      {A : Type 0} (o : Option A) (w : World) → w.incoming ≡ i → Quiet i (of_option o w)
  of_option-Quiet none w q = failure-Quiet w q
  of_option-Quiet (some a) w q = return-Quiet a w q

  io_write-Quiet : (pkt : List ℕ) (w : World) → w.incoming ≡ i → Quiet i (io_write pkt w)
  unfolding io_write
  io_write-Quiet pkt w q = record { stops = return-Ends _ _ tt; incoming = q }

  tx_pkt-Quiet : (pkt : List ℕ) (w : World) → w.incoming ≡ i → Quiet i (tx_pkt pkt w)
  unfolding tx_pkt
  tx_pkt-Quiet pkt w q = continue-Quiet _ _ (time_now-Quiet w q) λ ts w1 q1.
      continue-Quiet _ _ (io_write-Quiet pkt w1 q1)
        λ n w2 q2. continue-Quiet _ _ (time_delta-Quiet ts w2 q2) λ u w3 q3. of_option-Quiet n w3 q3

  send_pkt-Quiet :
      (d : Dev) (pkt : List ℕ) (w : World) → w.incoming ≡ i → Quiet i (send_pkt d pkt w)
  unfolding send_pkt
  send_pkt-Quiet d pkt w q = if-Quiet (ltb 65 (add_size d.tx_len 1)) _ _ w (failure-Quiet w q) (
      continue-Quiet _ _ (tx_pkt-Quiet (take (add_size d.tx_len 1) pkt) w q) λ n w1 q1.
        if-Quiet (n == add_size d.tx_len 1) _ _ w1 (return-Quiet tt w1 q1) (failure-Quiet w1 q1))

  tx_empty-Quiet : (d : Dev) (cmd : ℕ) (w : World) → w.incoming ≡ i → Quiet i (tx_empty d cmd w)
  unfolding tx_empty
  tx_empty-Quiet d cmd w q = send_pkt-Quiet d _ w q

  tx_preamble-Quiet :
      (d : Dev) (cmd : ℕ) (buf : List ℕ) (w : World)
      → w.incoming ≡ i
      → Quiet i (tx_preamble d cmd buf w)
  unfolding tx_preamble
  tx_preamble-Quiet d cmd buf w q =
      let room = sub_size d.tx_len 7 in
      let count = min (length buf) room in
      let pkt = init_pkt d cmd (length buf) (take count buf) in
      let send = λ (s : Option (Unit {0})). return (count_or_zero count s) in
      if-Quiet (ltb 57 room) (return 0) (attempt (send_pkt d pkt) >>= send) w (return-Quiet 0 w q) (
        continue-Quiet send (attempt (send_pkt d pkt) w)
          (attempt-Quiet (send_pkt d pkt w) (send_pkt-Quiet d pkt w q))
          λ s w1 q1. return-Quiet (count_or_zero count s) w1 q1)

  tx_frame-Quiet :
      (d : Dev) (seq : ℕ) (buf : List ℕ) (w : World)
      → w.incoming ≡ i
      → Quiet i (tx_frame d seq buf w)
  unfolding tx_frame
  tx_frame-Quiet d seq buf w q =
      let room = sub_size d.tx_len 5 in
      let count = min (length buf) room in
      let pkt = cont_pkt d seq (take count buf) in
      let send = λ (s : Option (Unit {0})). return (count_or_zero count s) in
      if-Quiet (ltb 59 room) (return 0) (attempt (send_pkt d pkt) >>= send) w (return-Quiet 0 w q) (
        continue-Quiet send (attempt (send_pkt d pkt) w)
          (attempt-Quiet (send_pkt d pkt w) (send_pkt-Quiet d pkt w q))
          λ s w1 q1. return-Quiet (count_or_zero count s) w1 q1)

  -- The loop gives up when `seq` reaches 128.
  tx_loop-Quiet :
      (fuel : ℕ) (d : Dev) (seq : ℕ) (rest : List ℕ) (w : World)
      → w.incoming ≡ i
      → seq ≤ 128
      → 129 ≤ fuel + seq
      → Quiet i (tx_loop fuel d seq rest w)
  unfolding tx_loop
  tx_loop-Quiet zero d seq rest w q hs hf = absurd (omega arith)
  tx_loop-Quiet (suc fuel) d seq rest w q hs hf = elim (Bool-cases (length rest == 0)) [
    | inl done ↦ rw (done, tx_loop) (return-Quiet tt w q)
    | inr more ↦ elim (Bool-cases (bit_and seq 0x80 == 0)) [
      | inr full ↦ rw (more, tx_loop) (rw (full, tx_loop) (failure-Quiet w q))
      | inl room ↦
          let small = room_below seq hs room in
          rw (more, tx_loop)
            (rw (room, tx_loop)
              (continue-Quiet _ _ (tx_frame-Quiet d seq rest w q) λ n w1 q1.
                if-Quiet (n == 0) _ _ w1 (failure-Quiet w1 q1) (
                  tx_loop-Quiet fuel d ((seq + 1) % 256) (drop n rest) w1 q1 (omega (arith, small))
                    (omega (arith, small)))))
    ]
  ]

  tx-Quiet :
      (d : Dev) (cmd : ℕ) (buf : List ℕ) (w : World) → w.incoming ≡ i → Quiet i (tx d cmd buf w)
  unfolding tx
  tx-Quiet d cmd buf w q = continue-Quiet _ _ (tx_preamble-Quiet d cmd buf w q) λ sent w1 q1.
      if-Quiet (sent == 0) _ _ w1 (failure-Quiet w1 q1)
        (tx_loop-Quiet 129 d 0 (drop sent buf) w1 q1 (omega arith) (omega arith))

  pub fido_tx-Quiet :
      (io : Driver) (d : Dev) (cmd : ℕ) (buf : List ℕ) (w : World)
      → io.transport_tx ≡ none
      → w.incoming ≡ i
      → Quiet i (fido_tx io d cmd buf w)
  unfolding fido_tx
  fido_tx-Quiet io d cmd buf w h q =
      rw (h, fido_tx)
        (if-Quiet (not d.io_handle || not io.has_write || ltb uint16_max (length buf)) _ _ w
          (failure-Quiet w q)
          (if-Quiet (length buf == 0) _ _ w (tx_empty-Quiet d cmd w q) (tx-Quiet d cmd buf w q)))

-- Without a transport function `fido_tx` ends in every world, whatever the driver and the clock
-- do: also on a message that is too long for 128 continuation frames.
pub fido_tx-Stops :
    (io : Driver) (d : Dev) (cmd : ℕ) (buf : List ℕ) (w : World)
    → io.transport_tx ≡ none
    → Stops (fido_tx io d cmd buf w)
fido_tx-Stops io d cmd buf w h = (fido_tx-Quiet w.incoming io d cmd buf w h refl).stops

pub attempt-Stops : {A : Type 0} (r : Result A × World) → Stops r → Stops (attempt_result r)
attempt-Stops (ok a, w) h = return-Ends (some a) w tt
attempt-Stops (fail, w) h = return-Ends none w tt
attempt-Stops (hang, w) h = absurd (h.ends refl)

-- Without a transport function `fido_rx` on reports of at least 8 bytes ends in every world, what it
-- stores fits the caller's buffer, and a message takes an outcome of the driver's reads.
pub fido_rx-Ends :
    (io : Driver) (d : Dev) (cmd count : ℕ) (w : World)
    → io.transport_rx ≡ none
    → 8 ≤ d.rx_len
    → Ends
        (λ a v. (length a ≤ count) × (length v.incoming < length w.incoming))
        (fido_rx io d cmd count w)
unfolding fido_rx
fido_rx-Ends io d cmd count w h hr =
    let g = not d.io_handle || not io.has_read || ltb uint16_max count in
    elim (Bool-cases g) [
      | inl bad ↦ rw (h, fido_rx) (rw (bad, fido_rx) (record { ends = λ e. cc; value = λ a e. cc }))
      | inr good ↦ rw (h, fido_rx) (rw (good, fido_rx) (rx-Ends d cmd count w hr))
    ]

status_of-Stops : (r : Option (List ℕ)) (w : World) → Stops (status_of r w)
status_of-Stops none w = return-Ends _ w tt
status_of-Stops (some []) w = return-Ends _ w tt
status_of-Stops (some (status ∷ rest)) w = return-Ends _ w tt

pub rx_cbor_status-Stops :
    (io : Driver) (d : Dev) (w : World)
    → io.transport_rx ≡ none
    → 8 ≤ d.rx_len
    → Stops (fido_rx_cbor_status io d w)
unfolding fido_rx_cbor_status
rx_cbor_status-Stops io d w plain len =
    let reply = fido_rx-Ends io d 0x10 2048 w plain len in
    let stops : Stops (fido_rx io d 0x10 2048 w) = record {
      ends = reply.ends;
      value = λ a e. tt;
    } in
    continue-Ends status_of (attempt (fido_rx io d 0x10 2048) w)
      (attempt-Stops (fido_rx io d 0x10 2048 w) stops) λ r w1 e. status_of-Stops r w1

-- ===== src/Io/Bounds.antt =====
-- `rx` in any world: it ends, and it never stores more than the caller's buffer holds.
use fido2_manage.Prelude.{
  ℕ, zero, suc, ◌+◌, ◌-◌, ◌*◌, ◌≤◌, ◌<◌, ◌≡◌, ◌≢◌, ap, true, false, List, ◌++◌, Option, length,
  take, drop, length-append, length-take, length-drop, Bool-cases, inl, inr, ltb, ◌==◌, not, ◌||◌,
  if◌then◌else◌, arith,
}
use fido2_manage.Platform.{
  Timespec, World, ok, hang, failure, return, of_option, io_read, ◌>>=◌, ◌>>◌,
}
use fido2_manage.Time.{time_now, time_delta}
use fido2_manage.Device.{Dev}
use fido2_manage.Io.{
  pad_frame, is_skipped, check_preamble, rx_frame, rx_preamble, rx_loop, rx_payload, rx, frame_cid,
  frame_type, init_bcnth, init_bcntl,
}
use fido2_manage.Ends.{
  Ends, time_now-Ends, time_delta-Ends, continue-Ends, io_read-Ends, guard-Ends, guard_not-Ends,
  of_option-Ends, return-Ends, weaken-Ends,
}
use fido2_manage.Io.Send.{IsSized, length-pad_frame}

-- A frame is 64 bytes, and it takes an outcome of the driver's reads.
rx_frame-Ends :
    (d : Dev) (w : World)
    → d.rx_len ≤ 64
    → Ends (λ fp v. (length fp ≡ 64) × (length v.incoming < length w.incoming)) (rx_frame d w)
unfolding rx_frame
rx_frame-Ends d w h =
    let charge = λ (ts : Timespec) (bs : List ℕ). (time_delta ts >> return (pad_frame bs)) in
    let check = λ (ts : Timespec) (bs : List ℕ).
      ((if length bs == d.rx_len then return tt else failure) >> charge ts bs) in
    let store = λ (ts : Timespec) (r : Option (List ℕ)). (of_option r >>= check ts) in
    let read = λ (ts : Timespec). (io_read d.rx_len >>= store ts) in
    continue-Ends _ (time_now w) (time_now-Ends w) λ ts w1 e1.
      guard_not-Ends (ltb 64 d.rx_len) (read ts) w1 λ _.
        continue-Ends (store ts) (io_read d.rx_len w1) (io_read-Ends d.rx_len w1) λ r w2 e2.
          continue-Ends (check ts) (of_option r w2) (of_option-Ends r w2) λ bs w3 e3.
            guard-Ends (length bs == d.rx_len) (charge ts bs) w3 λ size.
              continue-Ends (λ _. return (pad_frame bs)) (time_delta ts w3) (time_delta-Ends ts w3)
                λ _ w4 e4. return-Ends (pad_frame bs) w4 (
                  length-pad_frame bs (ground arith),
                  omega (arith, e2 bs e3.0, ap length e1, ap length e3.1, ap length e4),
                )

rx_preamble-Ends :
    (fuel : ℕ) (d : Dev) (cmd : ℕ) (w : World)
    → d.rx_len ≤ 64
    → length w.incoming < fuel
    → Ends
        (λ fp v. (length fp ≡ 64) × (length v.incoming < length w.incoming))
        (rx_preamble fuel d cmd w)
unfolding rx_preamble
rx_preamble-Ends zero d cmd w h hf = absurd (omega arith)
rx_preamble-Ends (suc fuel) d cmd w h hf =
    let next = λ (fp : List ℕ).
      (if is_skipped d fp then rx_preamble fuel d cmd else check_preamble d cmd fp) in
    continue-Ends next (rx_frame d w) (rx_frame-Ends d w h) λ fp w1 e1.
      elim (Bool-cases (is_skipped d fp)) [
        | inl skip ↦ rw skip (
            weaken-Ends (rx_preamble fuel d cmd w1)
              (rx_preamble-Ends fuel d cmd w1 h (omega (arith, e1.1)))
              (λ a v q. (q.0, omega (arith, q.1, e1.1))))
        | inr keep ↦ rw keep (record { ends = ground arith; value = λ a e. ground (arith, e1) })
      ]

-- A round of the loop stores between 1 and 59 bytes, until the payload is complete.
rx_loop-Ends :
    (fuel : ℕ) (d : Dev) (seq payload_len : ℕ) (got : List ℕ) (w : World)
    → IsSized d.rx_len
    → length got ≤ payload_len
    → payload_len < fuel + length got
    → Ends
        (λ a v. (length a ≡ payload_len) × (length v.incoming ≤ length w.incoming))
        (rx_loop fuel d seq payload_len got w)
unfolding rx_loop
rx_loop-Ends zero d seq payload_len got w h hg hf = absurd (omega arith)
rx_loop-Ends (suc fuel) d seq payload_len got w h hg hf =
    elim (Bool-cases (ltb (length got) payload_len)) [
      | inr complete ↦ rw (complete, rx_loop) (return-Ends got w (ground arith, omega arith))
      | inl short ↦
          let m = d.rx_len - 5 in
          let left = payload_len - length got in
          let n = if ltb m left then m else left in
          let next =
            λ (fp : List ℕ). rx_loop fuel d (seq + 1) payload_len (got ++ take n (drop 5 fp)) in
          let step = λ (fp : List ℕ).
            (if not (frame_cid fp == d.cid) || not (frame_type fp == seq)
              then failure
              else next fp) in
          rw (short, rx_loop)
            (continue-Ends step (rx_frame d w) (rx_frame-Ends d w h.1) λ fp w1 e1.
              let size : length (take n (drop 5 fp)) ≡ n =
                ground (arith, length-take n (drop 5 fp), length-drop 5 fp, e1.0) in
              let total = length-append got (take n (drop 5 fp)) in
              elim (Bool-cases (not (frame_cid fp == d.cid) || not (frame_type fp == seq))) [
                | inl bad ↦ rw bad (record { ends = λ e. cc; value = λ a e. cc })
                | inr good ↦ rw good (
                    weaken-Ends (next fp w1)
                      (rx_loop-Ends fuel d (seq + 1) payload_len (got ++ take n (drop 5 fp)) w1 h
                        (ground (arith, size, total)) (ground (arith, size, total)))
                      (λ a v q. (q.0, omega (arith, q.1, e1.1))))
              ])
    ]

rx_payload-Ends :
    (d : Dev) (count : ℕ) (f : List ℕ) (w : World)
    → IsSized d.rx_len
    → length f ≡ 64
    → Ends
        (λ a v. (length a ≤ count) × (length v.incoming ≤ length w.incoming))
        (rx_payload d count f w)
unfolding rx_payload
rx_payload-Ends d count f w h hl =
    let len = init_bcnth f * 256 + init_bcntl f in
    let body = drop 7 f in
    elim (Bool-cases (ltb count len)) [
      | inl over ↦ rw over (record { ends = λ e. cc; value = λ a e. cc })
      | inr fits ↦ elim (Bool-cases (ltb len (d.rx_len - 7))) [
        | inl short ↦
            rw (fits, short)
              (return-Ends (take len body) w
                (ground (arith, length-take len body, length-drop 7 f), omega arith))
        | inr long ↦
            rw (fits, long)
              (weaken-Ends (rx_loop (suc len) d 0 len (take (d.rx_len - 7) body) w)
                (rx_loop-Ends (suc len) d 0 len (take (d.rx_len - 7) body) w h
                  (ground (arith, length-take (d.rx_len - 7) body)) (omega arith))
                (λ a v e. (ground (arith, e.0), e.1)))
      ]
    ]

-- A message takes an outcome of the driver's reads.
pub rx-Ends :
    (d : Dev) (cmd count : ℕ) (w : World)
    → 8 ≤ d.rx_len
    → Ends (λ a v. (length a ≤ count) × (length v.incoming < length w.incoming)) (rx d cmd count w)
unfolding rx
rx-Ends d cmd count w h = elim (Bool-cases (ltb 64 d.rx_len)) [
  | inl wide ↦
      let g : (ltb 57 (d.rx_len - 7) || ltb 59 (d.rx_len - 5)) ≡ true = ground arith in
      let g0 : (not (ltb 7 d.rx_len) || not (ltb 5 d.rx_len)) ≡ false = ground arith in
      rw (g0, g) (record { ends = λ e. cc; value = λ a e. cc })
  | inr fits ↦
      let g : (ltb 57 (d.rx_len - 7) || ltb 59 (d.rx_len - 5)) ≡ false = ground arith in
      let g0 : (not (ltb 7 d.rx_len) || not (ltb 5 d.rx_len)) ≡ false = ground arith in
      let first = rx_preamble-Ends (suc (length w.incoming)) d cmd w (ground arith) (omega arith) in
      let r = rx_preamble (suc (length w.incoming)) d cmd w in
      rw (g0, g)
        (continue-Ends (λ f. rx_payload d count f) r first
          λ f w1 e.
            weaken-Ends (rx_payload d count f w1)
              (rx_payload-Ends d count f w1 (h, ground arith) e.0)
              (λ a v q. (q.0, omega (arith, q.1, e.1))))
]

-- In every world, whatever the driver and the clock do, a call of `rx` on reports of at least 8
-- bytes ends, and the message that it stores is never longer than the caller's buffer.
pub rx_bounds :
    (d : Dev) (cmd count : ℕ) (w : World)
    → 8 ≤ d.rx_len
    → ((rx d cmd count w).0 ≢ hang)
      × ((buf : List ℕ) → (rx d cmd count w).0 ≡ ok buf → length buf ≤ count)
rx_bounds d cmd count w h =
    let all = rx-Ends d cmd count w h in (all.ends, λ buf e. (all.value buf e).0)

-- ===== src/Io/Receive.antt =====
-- What `rx` makes of the packets of a message, when the clock is steady.
use fido2_manage.Prelude.{
  ℕ, zero, suc, ◌+◌, ◌-◌, ◌*◌, ◌^◌, ◌≤◌, ◌<◌, ◌≡◌, refl, ap, ◌∙◌, true, false, not, ◌||◌, List, ◌∷◌,
  ◌++◌, map, Option, some, length, take, drop, min, append-nil, append_assoc, length-append,
  length-take, length-drop, take-append-drop, take_all, take-take, take-min, eq-nil, ltb, ◌==◌,
  if◌then◌else◌, le32, Bool-cases, inl, inr, arith,
}
use fido2_manage.Platform.{World, Result, ok, io_read, failure, continue, continue-ok}
use fido2_manage.Time.Steady.{SteadyClock, time_now_lem, time_delta-ok}
use fido2_manage.Device.{Dev}
use fido2_manage.Io.{pad_frame, frame_cid, frame_type, rx_frame, rx_loop}
use fido2_manage.Io.Frame.{through, length-through, get_or-through, body-through, frame_cid-through}
use fido2_manage.Io.Send.{IsSized, cont_packets, cont_packets_step, cont_packets_end}

-- A call that gives `a` and leaves `rest` to be read.
pub record Reads {A : Type 0} (w : World) (rest : List (Option (List ℕ))) (a : A)
    (r : Result A × World) : Type 0 where
  pub done : r.0 ≡ ok a
  pub incoming : r.1.incoming ≡ rest
  pub sent : r.1.sent ≡ w.sent
  pub accepts : r.1.accepts ≡ w.accepts
  pub clock : r.1.clock ≡ w.clock

pub Reads-Reads :
    {A B : Type 0} {w : World} {m rest : List (Option (List ℕ))} {a : A} {b : B}
    {r : Result A × World} {r' : Result B × World}
    → Reads w m a r
    → Reads r.1 rest b r'
    → Reads w rest b r'
Reads-Reads s t = record {
  done = t.done;
  incoming = t.incoming;
  sent = t.sent ∙ s.sent;
  accepts = t.accepts ∙ s.accepts;
  clock = t.clock ∙ s.clock;
}

pub rx_frame-Reads :
    (d : Dev) (w : World) (bs : List ℕ) (rest : List (Option (List ℕ)))
    → SteadyClock w.clock
    → d.rx_len ≤ 64
    → length bs ≡ d.rx_len
    → w.incoming ≡ some bs ∷ rest
    → Reads w rest (pad_frame bs) (rx_frame d w)
unfolding rx_frame io_read
rx_frame-Reads d w bs rest h hr hb hi =
    let (t, ms, e, el) = h w.ticks in
    ground (
      arith,
      time_now_lem w t e,
      take_all d.rx_len bs (omega arith),
      time_delta-ok (record w { ticks = w.ticks + 1; incoming = rest }) t ms el,
    )

-- What the peer's driver put on the wire, as the reads that deliver it: without the report number.
abbrev pub delivered : List (List ℕ) → List (Option (List ℕ))
delivered = map (λ p. some (drop 1 p))

pub drop-wire : (n x : ℕ) (bs : List ℕ) → drop 1 (take (n + 1) (x ∷ bs)) ≡ take n bs
drop-wire n x bs = let e : n + 1 ≡ suc n = omega arith in rw e refl

rx_loop_step :
    (fuel : ℕ) (d : Dev) (seq payload_len : ℕ) (got : List ℕ) (w : World)
    → length got < payload_len
    → rx_loop (suc fuel) d seq payload_len got w
      ≡ continue
          (λ fp.
            if not (frame_cid fp == d.cid) || not (frame_type fp == seq)
            then failure
            else rx_loop fuel d
                (seq + 1)
                payload_len
                (got ++ take (min (payload_len - length got) (d.rx_len - 5)) (drop 5 fp)))
          (rx_frame d w)
unfolding rx_loop
rx_loop_step fuel d seq payload_len got w h =
    let e : (if ltb (d.rx_len - 5) (payload_len - length got)
          then d.rx_len - 5
          else payload_len - length got)
        ≡ min (payload_len - length got) (d.rx_len - 5) =
      ground arith in
    let t : ltb (length got) payload_len ≡ true = ground arith in rw (t, rx_loop) (simp e)

rx_loop_end :
    (fuel : ℕ) (d : Dev) (seq payload_len : ℕ) (got : List ℕ) (w : World)
    → payload_len ≤ length got
    → rx_loop (suc fuel) d seq payload_len got w ≡ (ok got, w)
unfolding rx_loop
rx_loop_end fuel d seq payload_len got w h = ground arith

-- The device at the other end: its packets are on the channel of `d`, and of the length that `d`
-- reads.
abbrev pub peer : Dev → Dev
peer d = record d { tx_len = d.rx_len }

module _ (d : Dev) (sized : IsSized d.rx_len) (cid_word : d.cid < 2 ^ 32) where
  -- A continuation frame passes the receiver's test, and shows its chunk.
  cont_frame_lem :
      (seq : ℕ) (rest : List ℕ)
      → let f = through d.rx_len (le32 d.cid ++ (seq ∷ take (d.rx_len - 5) rest)) in
        ((not (frame_cid f == d.cid) || not (frame_type f == seq)) ≡ false)
        × (take (min (length rest) (d.rx_len - 5)) (drop 5 f) ≡ take (d.rx_len - 5) rest)
  cont_frame_lem seq rest =
      (ground (arith, c, t), b ∙ take-take m (n - 5) rest (omega arith) ∙ take-min rest (n - 5))
    where
      n : ℕ
      n = d.rx_len

      m : ℕ
      m = min (length rest) (n - 5)

      chunk : List ℕ
      chunk = take (n - 5) rest

      small : length chunk ≡ m
      small = length-take (n - 5) rest ∙ omega arith

      c : frame_cid (through n (le32 d.cid ++ (seq ∷ chunk))) ≡ d.cid
      c =
          frame_cid-through n d.cid (seq ∷ chunk) (omega arith) sized.1 (omega (arith, small))
            cid_word

      t : frame_type (through n (le32 d.cid ++ (seq ∷ chunk))) ≡ seq
      t =
          get_or-through n (le32 d.cid ++ (seq ∷ chunk)) 4 (omega arith) sized.1 (omega arith)
            (omega (arith, small))

      b : take m (drop 5 (through n (le32 d.cid ++ (seq ∷ chunk)))) ≡ take m chunk
      b =
          body-through n (le32 d.cid ++ (seq ∷ chunk)) 5 m (omega arith) sized.1
            (omega (arith, small)) (omega (arith, small))

  rx_loop_finish :
      (k fuel seq payload_len : ℕ) (got rest : List ℕ) (more : List (Option (List ℕ))) (w : World)
      → payload_len ≡ length got + length rest
      → length rest ≡ 0
      → w.incoming ≡ delivered (cont_packets (peer d) k seq rest) ++ more
      → Reads w more (got ++ rest) (rx_loop (suc fuel) d seq payload_len got w)
  rx_loop_finish k fuel seq payload_len got rest more w e z hi = ground (
    arith,
    rx_loop_end fuel d seq payload_len got w (omega arith),
    cont_packets_end (peer d) k seq rest z,
    eq-nil rest z,
    append-nil got,
  )

  pub rx_loop-Reads :
      (k fuel seq payload_len : ℕ) (got rest : List ℕ) (more : List (Option (List ℕ))) (w : World)
      → SteadyClock w.clock
      → payload_len ≡ length got + length rest
      → length rest ≤ k * (d.rx_len - 5)
      → length rest < fuel
      → w.incoming ≡ delivered (cont_packets (peer d) k seq rest) ++ more
      → Reads w more (got ++ rest) (rx_loop fuel d seq payload_len got w)
  rx_loop-Reads k zero seq payload_len got rest more w h e hk hf hi = absurd (omega arith)
  rx_loop-Reads zero (suc fuel) seq payload_len got rest more w h e hk hf hi =
      rx_loop_finish zero fuel seq payload_len got rest more w e (omega arith) hi
  rx_loop-Reads (suc k) (suc fuel) seq payload_len got rest more w h e hk hf hi =
      elim (Bool-cases (length rest == 0)) [
        | inl z ↦ rx_loop_finish (suc k) fuel seq payload_len got rest more w e (ground arith) hi
        | inr nz ↦
            (let n = d.rx_len - 5 in
              let chunk = take n rest in
              let bs = take d.rx_len (pad_frame (le32 d.cid ++ (seq ∷ chunk))) in
              let next = delivered (cont_packets (peer d) k (seq + 1) (drop n rest)) ++ more in
              let some_left : 0 < length rest = ground arith in
              let here : w.incoming ≡ some bs ∷ next =
                hi ∙ rw (cont_packets_step (peer d) k seq rest some_left, drop-wire) refl in
              let size : length bs ≡ d.rx_len =
                length-through d.rx_len (le32 d.cid ++ (seq ∷ chunk)) sized.1
                  (omega (arith, length-take n rest)) in
              let r = rx_frame d w in
              let first = rx_frame-Reads d w bs next h sized.1 size here in
              let (pass, body) = cont_frame_lem seq rest in
              let left : payload_len - length got ≡ length rest = omega arith in
              let more_got =
                rx_loop-Reads k fuel (seq + 1) payload_len (got ++ chunk) (drop n rest) more r.1
                  (λ i. rw first.clock (h i))
                  (omega (arith, length-append got chunk, length-take n rest, length-drop n rest))
                  (omega (arith, length-drop n rest)) (omega (arith, length-drop n rest))
                  first.incoming in
              let same : (got ++ chunk) ++ drop n rest ≡ got ++ rest =
                append_assoc got chunk (drop n rest)
                ∙ ap (λ t. got ++ t) (take-append-drop n rest) in
              rw
                (
                  rx_loop_step fuel d seq payload_len got w (omega arith),
                  continue-ok _ r (pad_frame bs) first.done,
                  pass,
                  left,
                  body,
                  ← same,
                )
                (Reads-Reads first more_got))
      ]

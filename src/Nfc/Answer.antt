-- ===== src/Nfc/Answer.antt =====
-- Response chaining: an answer that the card splits is put together again.
use fido2_manage.Prelude.{
  ℕ, zero, suc, ◌+◌, ◌-◌, ◌≤◌, ◌<◌, ◌≡◌, ◌≢◌, refl, ap, ◌∙◌, Bool, List, [], ◌∷◌, ◌++◌, Option,
  some, length, take, get_or, All, ltb, take_all, take-append, length-append, append-nil,
  append_assoc, if◌then◌else◌, arith,
}
use fido2_manage.Platform.{
  World, Result, ok, M, io_read, io_write, continue, continue-ok, continue-continue, of_option,
  failure, return, ◌>>=◌,
}
use fido2_manage.Time.Steady.{SteadyClock, time_now_lem, time_delta-ok}
use fido2_manage.Buf.{Cursor, fido_buf_write}
use fido2_manage.Nfc.{tx_get_response, rx_apdu, rx_more, rx_msg, int_max}
use fido2_manage.Nfc.Chain.{IsAccepting}

-- A call that gives `a`, sends `qs`, and leaves `rest` to be read.
pub record Answers {A : Type 0} (w : World) (qs : List (List ℕ)) (rest : List (Option (List ℕ)))
    (a : A) (r : Result A × World) : Type 0 where
  pub done : r.0 ≡ ok a
  pub sent : r.1.sent ≡ w.sent ++ qs
  pub incoming : r.1.incoming ≡ rest
  pub accepts : r.1.accepts ≡ w.accepts
  pub clock : r.1.clock ≡ w.clock

Answers-Answers :
    {A B : Type 0} {w : World} {ps qs : List (List ℕ)} {m rest : List (Option (List ℕ))} {a : A}
    {b : B} {r : Result A × World} {r' : Result B × World}
    → Answers w ps m a r
    → Answers r.1 qs rest b r'
    → Answers w (ps ++ qs) rest b r'
Answers-Answers {w = w} {ps = ps} {qs = qs} s t = record {
  done = t.done;
  sent = t.sent ∙ ap (λ l. l ++ qs) s.sent ∙ append_assoc w.sent ps qs;
  incoming = t.incoming;
  accepts = t.accepts ∙ s.accepts;
  clock = t.clock ∙ s.clock;
}

get_or-append_at : (xs ys : List ℕ) (i : ℕ) → get_or (xs ++ ys) (length xs + i) 0 ≡ get_or ys i 0
get_or-append_at [] ys i = ap (λ k. get_or ys k 0) (add_zero_left i)
  where
    add_zero_left : (i : ℕ) → 0 + i ≡ i
    add_zero_left i = omega arith
get_or-append_at (x ∷ xs) ys i =
    let e : suc (length xs) + i ≡ suc (length xs + i) = omega arith in
    rw e (get_or-append_at xs ys i)

rx_apdu-Answers :
    (c : Cursor) (body : List ℕ) (sw1 sw2 : ℕ) (rest : List (Option (List ℕ))) (w : World)
    → SteadyClock w.clock
    → length body ≤ 256
    → length body ≤ c.room
    → w.incoming ≡ some (body ++ (sw1 ∷ sw2 ∷ [])) ∷ rest
    → Answers w [] rest
        (sw1, sw2, record { written = c.written ++ body; room = c.room - length body })
        (rx_apdu c w)
unfolding rx_apdu io_read fido_buf_write
rx_apdu-Answers c body sw1 sw2 rest w h hb hr hi =
    let (t, ms, e, el) = h w.ticks in
    let sw : List ℕ = sw1 ∷ sw2 ∷ [] in
    let f = body ++ sw in
    let l : length f ≡ length body + 2 = omega (arith, length-append body sw) in
    let n2 : length f - 2 ≡ length body + 0 = omega (arith, l) in
    let n1 : length f - 1 ≡ length body + 1 = omega (arith, l) in
    let s1 : get_or f (length f - 2) 0 ≡ sw1 = rw n2 (get_or-append_at body sw 0) in
    let s2 : get_or f (length f - 1) 0 ≡ sw2 = rw n1 (get_or-append_at body sw 1) in
    let b : take (length f - 2) f ≡ body = take-append (length f - 2) body sw (omega (arith, l)) in
    ground (
      arith,
      l,
      s1,
      s2,
      b,
      append-nil w.sent,
      time_now_lem w t e,
      take_all 258 f (omega (arith, l)),
      time_delta-ok (record w { ticks = w.ticks + 1; incoming = rest }) t ms el,
    )

-- A part of an answer, and how many bytes the card then says are left: its second status byte.
abbrev pub Part : Type 0
Part = List ℕ × ℕ

-- The reads that deliver an answer: each part with the status 0x61 and its count, then the last
-- bytes with the answer's own status.
abbrev pub answer : List Part → List ℕ → ℕ → ℕ → List (Option (List ℕ))
answer [] last sw1 sw2 = some (last ++ (sw1 ∷ sw2 ∷ [])) ∷ []
answer ((p, n) ∷ ps) last sw1 sw2 = some (p ++ (0x61 ∷ n ∷ [])) ∷ answer ps last sw1 sw2

abbrev pub joined : List Part → List ℕ → List ℕ
joined [] last = last
joined ((p, n) ∷ ps) last = p ++ joined ps last

-- The GET RESPONSE commands that ask for the parts after the first.
abbrev pub requests : Bool → List Part → List (List ℕ)
requests cbor [] = []
requests cbor ((p, n) ∷ ps) =
    ((if cbor then 0x80 else 0x00) ∷ 0xc0 ∷ 0 ∷ 0 ∷ n ∷ []) ∷ requests cbor ps

abbrev pub FitsPart : Part → Type 0
FitsPart p = length p.0 ≤ 256

tx_get_response-Answers :
    (n : ℕ) (cbor : Bool) (w : World)
    → IsAccepting w
    → Answers w
        (((if cbor then 0x80 else 0x00) ∷ 0xc0 ∷ 0 ∷ 0 ∷ n ∷ []) ∷ [])
        w.incoming
        tt
        (tx_get_response n cbor w)
unfolding tx_get_response io_write
tx_get_response-Answers n cbor w a =
    ground (arith, (a w.sent ((if cbor then 0x80 else 0x00) ∷ 0xc0 ∷ 0 ∷ 0 ∷ n ∷ [])).1)

rx_more_end :
    (fuel : ℕ) (cbor : Bool) (sw1 sw2 : ℕ) (c : Cursor) (w : World)
    → sw1 ≢ 0x61
    → rx_more (suc fuel) cbor (sw1, sw2, c) w ≡ (ok (sw1, sw2, c), w)
unfolding rx_more
rx_more_end fuel cbor sw1 sw2 c w h = ground arith

rx_more_step :
    (fuel : ℕ) (cbor : Bool) (n : ℕ) (c : Cursor) (w : World)
    → rx_more (suc fuel) cbor (0x61, n, c) w
      ≡ continue (λ _. rx_apdu c >>= rx_more fuel cbor) (tx_get_response n cbor w)
unfolding rx_more
rx_more_step fuel cbor n c w = refl

-- The first part and the loop, from any cursor.
rx_parts-Answers :
    (ps : List Part) (fuel : ℕ) (cbor : Bool) (c : Cursor) (last : List ℕ) (sw1 sw2 : ℕ)
    (rest : List (Option (List ℕ))) (w : World)
    → SteadyClock w.clock
    → IsAccepting w
    → All FitsPart ps
    → length last ≤ 256
    → length (joined ps last) ≤ c.room
    → sw1 ≢ 0x61
    → length ps < fuel
    → w.incoming ≡ answer ps last sw1 sw2 ++ rest
    → Answers w
        (requests cbor ps)
        rest
        (
          sw1,
          sw2,
          record { written = c.written ++ joined ps last; room = c.room - length (joined ps last) },
        )
        ((rx_apdu c >>= rx_more fuel cbor) w)
rx_parts-Answers ps zero cbor c last sw1 sw2 rest w h a hp hl hr hs hf e = absurd (omega arith)
rx_parts-Answers [] (suc fuel) cbor c last sw1 sw2 rest w h a hp hl hr hs hf e =
    let first = rx_apdu-Answers c last sw1 sw2 rest w h hl hr e in
    rw
      (
        continue-ok (rx_more (suc fuel) cbor) (rx_apdu c w) _ first.done,
        rx_more_end fuel cbor sw1 sw2 _ _ hs,
      )
      (record {
        done = refl;
        sent = first.sent;
        incoming = first.incoming;
        accepts = first.accepts;
        clock = first.clock;
      })
rx_parts-Answers ((p, n) ∷ ps) (suc fuel) cbor c last sw1 sw2 rest w h a hp hl hr hs hf e =
    let l = length-append p (joined ps last) in
    let c' : Cursor = record { written = c.written ++ p; room = c.room - length p } in
    let first =
      rx_apdu-Answers c p 0x61 n (answer ps last sw1 sw2 ++ rest) w h hp.0 (omega (arith, l)) e in
    let w1 = (rx_apdu c w).1 in
    let ask = tx_get_response-Answers n cbor w1 (λ s q. rw first.accepts (a s q)) in
    let w2 = (tx_get_response n cbor w1).1 in
    let more =
      rx_parts-Answers ps fuel cbor c' last sw1 sw2 rest w2 (λ i. rw (ask.clock, first.clock) (h i))
        (λ s q. rw (ask.accepts, first.accepts) (a s q)) hp.1 hl (omega (arith, l)) hs (omega arith)
        (ask.incoming ∙ first.incoming) in
    let room : c.room - length p - length (joined ps last) ≡ c.room - length (p ++ joined ps last) =
      omega (arith, l) in
    let more' = rw (append_assoc c.written p (joined ps last), room) at more in
    rw
      (
        continue-ok (rx_more (suc fuel) cbor) (rx_apdu c w) _ first.done,
        rx_more_step fuel cbor n c' w1,
        continue-ok (λ _. rx_apdu c' >>= rx_more fuel cbor) (tx_get_response n cbor w1) tt ask.done,
      )
      (Answers-Answers first (Answers-Answers ask more'))

length-answer :
    (ps : List Part) (last : List ℕ) (sw1 sw2 : ℕ) → length (answer ps last sw1 sw2) ≡ length ps + 1
length-answer [] last sw1 sw2 = omega arith
length-answer ((p, n) ∷ ps) last sw1 sw2 = omega (arith, length-answer ps last sw1 sw2)

-- The end of `rx_msg`: the status goes behind the data.
finish : ℕ → ℕ × ℕ × Cursor → M (List ℕ)
finish count s = do
  c' ← of_option (fido_buf_write s.2 (s.0 ∷ s.1 ∷ []))
  if ltb int_max (count - c'.room) then failure else return (c'.written)

finish-ok :
    (count sw1 sw2 : ℕ) (body : List ℕ) (w : World)
    → length body + 2 ≤ count
    → count ≤ int_max
    → finish count (sw1, sw2, record { written = body; room = count - length body }) w
      ≡ (ok (body ++ (sw1 ∷ sw2 ∷ [])), w)
unfolding finish fido_buf_write
finish-ok count sw1 sw2 body w h hm = ground arith

-- A card that gives its answer in parts of at most 256 bytes, to a driver that takes every command,
-- with a steady clock and a buffer that holds the answer and its status: `rx_msg` returns the parts
-- joined in order with the final status behind them, having asked for each part once.
pub rx_msg-Answers :
    (ps : List Part) (last : List ℕ) (sw1 sw2 count : ℕ) (cbor : Bool)
    (rest : List (Option (List ℕ))) (w : World)
    → SteadyClock w.clock
    → IsAccepting w
    → All FitsPart ps
    → length last ≤ 256
    → sw1 ≢ 0x61
    → length (joined ps last) + 2 ≤ count
    → count ≤ int_max
    → w.incoming ≡ answer ps last sw1 sw2 ++ rest
    → Answers w (requests cbor ps) rest (joined ps last ++ (sw1 ∷ sw2 ∷ [])) (rx_msg count cbor w)
unfolding rx_msg finish
rx_msg-Answers ps last sw1 sw2 count cbor rest w h a hp hl hs hc hm e =
    let c0 : Cursor = record { written = []; room = count } in
    let fuel = suc (length w.incoming) in
    let enough : length ps < fuel = omega (
      arith,
      ap length e,
      length-append (answer ps last sw1 sw2) rest,
      length-answer ps last sw1 sw2,
    ) in
    let all =
      rx_parts-Answers ps fuel cbor c0 last sw1 sw2 rest w h a hp hl (omega arith) hs enough e in
    let v = ((rx_apdu c0 >>= rx_more fuel cbor) w).1 in
    rw
      (
        continue-continue (rx_more fuel cbor) (finish count) (rx_apdu c0 w),
        continue-ok (finish count) ((rx_apdu c0 >>= rx_more fuel cbor) w) _ all.done,
        finish-ok count sw1 sw2 (joined ps last) v hc hm,
      )
      (record {
        done = refl;
        sent = all.sent;
        incoming = all.incoming;
        accepts = all.accepts;
        clock = all.clock;
      })

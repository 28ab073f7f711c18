-- ===== src/Io/Send.antt =====
-- What `tx` hands to the driver when no call outside the library fails: every frame of the message,
-- in order, and nothing else.
use fido2_manage.Prelude.{
  ℕ, zero, suc, ◌+◌, ◌-◌, ◌*◌, ◌≤◌, ◌<◌, ◌≡◌, refl, ap, true, false, ◌==◌, min, drop, le32,
  take-min, drop-min, append-nil, append_assoc, if◌then◌else◌, ◌∙◌, ◌%◌, ◌/◌, bit_or, top_bit_clear,
  List, [], ◌∷◌, ◌++◌, some, length, take, replicate, length-append, length-replicate, length-take,
  length-drop, Bool-cases, inl, inr, arith,
}
use fido2_manage.Platform.{
  World, Result, ok, M, io_write, attempt, attempt_result, continue, failure, continue-ok,
}
use fido2_manage.Time.Steady.{SteadyClock, time_now_lem, time_delta-ok}
use fido2_manage.Device.{Dev}
use fido2_manage.Io.{
  pad_frame, cont_pkt, init_pkt, tx_pkt, send_pkt, tx_frame, tx_preamble, tx_loop, tx,
}

-- The driver takes every packet whole, and the clock is steady.
pub record IsReady (w : World) : Type 0 where
  pub takes : (s : List (List ℕ)) (p : List ℕ) → w.accepts s p ≡ some (length p)
  pub steady : SteadyClock w.clock

-- A call that gives `a`, adds `ps` to the packets sent, and leaves what it did not use.
pub record Sends {A : Type 0} (w : World) (ps : List (List ℕ)) (a : A) (r : Result A × World)
    : Type 0 where
  pub done : r.0 ≡ ok a
  pub sent : r.1.sent ≡ w.sent ++ ps
  pub accepts : r.1.accepts ≡ w.accepts
  pub incoming : r.1.incoming ≡ w.incoming
  pub clock : r.1.clock ≡ w.clock

pub tx_pkt-Sends :
    (w : World) (pkt : List ℕ) → IsReady w → Sends w (pkt ∷ []) (length pkt) (tx_pkt pkt w)
unfolding tx_pkt io_write
tx_pkt-Sends w pkt h =
    let (t, ms, e, el) = h.steady w.ticks in
    ground (
      arith,
      h.takes w.sent pkt,
      time_now_lem w t e,
      time_delta-ok (record w { ticks = w.ticks + 1; sent = w.sent ++ (pkt ∷ []) }) t ms el,
    )

pub attempt-Sends :
    {A : Type 0} (m : M A) {w : World} {ps : List (List ℕ)} {a : A}
    → Sends w ps a (m w)
    → Sends w ps (some a) (attempt m w)
attempt-Sends {A} m {w} s = go (m w) s
  where
    go :
        {ps : List (List ℕ)} {a : A} (r : Result A × World)
        → Sends w ps a r
        → Sends w ps (some a) (attempt_result r)
    go r s = ground arith

-- The library never sends more than the driver's report, and the report number before it.
abbrev pub IsSized : ℕ → Type 0
IsSized n = (8 ≤ n) × (n ≤ 64)

pub length-pad_frame : (bs : List ℕ) → length bs ≤ 64 → length (pad_frame bs) ≡ 64
length-pad_frame bs h = omega (
  arith,
  length-append bs (replicate (64 - length bs) 0),
  length-replicate (64 - length bs) (let z : ℕ = 0 in z),
)

-- The packet on the wire: what fits the report.
abbrev pub wire : Dev → List ℕ → List ℕ
wire d pkt = take (d.tx_len + 1) pkt

pub send_pkt-Sends :
    (d : Dev) (w : World) (pkt : List ℕ)
    → IsReady w
    → d.tx_len ≤ 64
    → length pkt ≡ 65
    → Sends w (wire d pkt ∷ []) tt (send_pkt d pkt w)
unfolding send_pkt
send_pkt-Sends d w pkt h ht hp =
    ground (arith, tx_pkt-Sends w (wire d pkt) h, length-take (d.tx_len + 1) pkt)

-- The continuation packets of `rest`, numbered from `seq`, at most `k` of them.
unfoldable pub cont_packets : Dev → ℕ → ℕ → List ℕ → List (List ℕ)
cont_packets d zero seq rest = []
cont_packets d (suc k) seq rest = elim (length rest == 0) [
  | true ↦ []
  | false ↦
      wire d (cont_pkt d seq (take (d.tx_len - 5) rest))
      ∷ cont_packets d k (seq + 1) (drop (d.tx_len - 5) rest)
]

pub cont_packets_step :
    (d : Dev) (k seq : ℕ) (rest : List ℕ)
    → 0 < length rest
    → cont_packets d (suc k) seq rest
      ≡ wire d (cont_pkt d seq (take (d.tx_len - 5) rest))
        ∷ cont_packets d k (seq + 1) (drop (d.tx_len - 5) rest)
unfolding cont_packets
cont_packets_step d k seq rest h = ground arith

pub cont_packets_end :
    (d : Dev) (k seq : ℕ) (rest : List ℕ) → length rest ≡ 0 → cont_packets d k seq rest ≡ []
unfolding cont_packets
cont_packets_end d zero seq rest h = refl
cont_packets_end d (suc k) seq rest h = ground arith

length-cont_pkt :
    (d : Dev) (seq : ℕ) (body : List ℕ) → length body ≤ 59 → length (cont_pkt d seq body) ≡ 65
length-cont_pkt d seq body h = ap suc (length-pad_frame (le32 d.cid ++ (seq ∷ body)) (omega arith))

length-init_pkt :
    (d : Dev) (cmd n : ℕ) (body : List ℕ) → length body ≤ 57 → length (init_pkt d cmd n body) ≡ 65
length-init_pkt d cmd n body h = ap suc (
    length-pad_frame (le32 d.cid ++ (bit_or 0x80 cmd ∷ n / 256 % 256 ∷ n % 256 ∷ body))
      (omega arith))

tx_frame-Sends :
    (d : Dev) (w : World) (seq : ℕ) (rest : List ℕ)
    → IsReady w
    → IsSized d.tx_len
    → Sends w
        (wire d (cont_pkt d seq (take (d.tx_len - 5) rest)) ∷ [])
        (min (length rest) (d.tx_len - 5))
        (tx_frame d seq rest w)
unfolding tx_frame
tx_frame-Sends d w seq rest h hs = ground (
  arith,
  take-min rest (d.tx_len - 5),
  length-take (d.tx_len - 5) rest,
  attempt-Sends (send_pkt d (cont_pkt d seq (take (d.tx_len - 5) rest))) (
      send_pkt-Sends d w (cont_pkt d seq (take (d.tx_len - 5) rest)) h hs.1 (
        length-cont_pkt d seq (take (d.tx_len - 5) rest)
          (omega (arith, length-take (d.tx_len - 5) rest)))),
)

IsReady-Sends :
    {A : Type 0} {w : World} {ps : List (List ℕ)} {a : A} (r : Result A × World)
    → IsReady w
    → Sends w ps a r
    → IsReady r.1
IsReady-Sends r h s = record {
  takes = λ q p. rw s.accepts (h.takes q p);
  steady = λ n. rw s.clock (h.steady n);
}

Sends-Sends :
    {A B : Type 0} {w : World} {ps qs : List (List ℕ)} {a : A} {b : B} {r : Result A × World}
    {r' : Result B × World}
    → Sends w ps a r
    → Sends r.1 qs b r'
    → Sends w (ps ++ qs) b r'
Sends-Sends {w = w} {ps = ps} {qs = qs} s t = record {
  done = t.done;
  sent = t.sent ∙ ap (λ l. l ++ qs) s.sent ∙ append_assoc w.sent ps qs;
  accepts = t.accepts ∙ s.accepts;
  incoming = t.incoming ∙ s.incoming;
  clock = t.clock ∙ s.clock;
}

tx_loop_step :
    (k : ℕ) (d : Dev) (seq : ℕ) (rest : List ℕ) (w : World)
    → 0 < length rest
    → seq < 128
    → tx_loop (suc k) d seq rest w
      ≡ continue
          (λ n. if n == 0 then failure else tx_loop k d (seq + 1) (drop n rest))
          (tx_frame d seq rest w)
unfolding tx_loop
tx_loop_step k d seq rest w hl hs =
    let e : (seq + 1) % 256 ≡ seq + 1 = omega arith in
    let f : (length rest == 0) ≡ false = ground arith in
    rw (f, tx_loop) (rw (top_bit_clear seq hs, tx_loop) (simp e))

tx_loop_end :
    (k : ℕ) (d : Dev) (seq : ℕ) (rest : List ℕ) (w : World)
    → length rest ≡ 0
    → tx_loop (suc k) d seq rest w ≡ (ok tt, w)
unfolding tx_loop
tx_loop_end k d seq rest w h = ground arith

tx_loop-Sends :
    (m : ℕ) (d : Dev) (seq : ℕ) (rest : List ℕ) (w : World)
    → IsReady w
    → IsSized d.tx_len
    → seq + m ≡ 128
    → length rest ≤ m * (d.tx_len - 5)
    → Sends w (cont_packets d m seq rest) tt (tx_loop (suc m) d seq rest w)
tx_loop-Sends zero d seq rest w h hs e hl = ground (
  arith,
  tx_loop_end 0 d seq rest w (omega arith),
  cont_packets_end d 0 seq rest (omega arith),
  append-nil w.sent,
)
tx_loop-Sends (suc m) d seq rest w h hs e hl = elim (Bool-cases (length rest == 0)) [
  | inl z ↦ ground (
    arith,
    tx_loop_end (suc m) d seq rest w (ground arith),
    cont_packets_end d (suc m) seq rest (ground arith),
    append-nil w.sent,
  )
  | inr nz ↦
      let n = d.tx_len - 5 in
      let count = min (length rest) n in
      let r = tx_frame d seq rest w in
      let first = tx_frame-Sends d w seq rest h hs in
      let pos : (count == 0) ≡ false = ground arith in
      let more =
        tx_loop-Sends m d (seq + 1) (drop n rest) r.1 (IsReady-Sends r h first) hs (omega arith)
          (omega (arith, length-drop n rest)) in
      rw
        (
          tx_loop_step (suc m) d seq rest w (ground arith) (omega arith),
          continue-ok _ r count first.done,
          pos,
          drop-min rest n,
          cont_packets_step d m seq rest (ground arith),
        )
        (Sends-Sends first more)
]

-- The packets of a message: the initialization packet, then the continuation packets.
unfoldable pub packets : Dev → ℕ → List ℕ → List (List ℕ)
packets d cmd buf =
    wire d (init_pkt d cmd (length buf) (take (d.tx_len - 7) buf))
    ∷ cont_packets d 128 0 (drop (d.tx_len - 7) buf)

tx_preamble-Sends :
    (d : Dev) (w : World) (cmd : ℕ) (buf : List ℕ)
    → IsReady w
    → IsSized d.tx_len
    → Sends w
        (wire d (init_pkt d cmd (length buf) (take (d.tx_len - 7) buf)) ∷ [])
        (min (length buf) (d.tx_len - 7))
        (tx_preamble d cmd buf w)
unfolding tx_preamble
tx_preamble-Sends d w cmd buf h hs =
    let pkt = init_pkt d cmd (length buf) (take (d.tx_len - 7) buf) in
    let size =
      length-init_pkt d cmd (length buf) (take (d.tx_len - 7) buf)
        (omega (arith, length-take (d.tx_len - 7) buf)) in
    ground (
      arith,
      take-min buf (d.tx_len - 7),
      length-take (d.tx_len - 7) buf,
      attempt-Sends (send_pkt d pkt) (send_pkt-Sends d w pkt h hs.1 size),
    )

-- On reports of 8 to 64 bytes, with a driver that takes every packet whole and a steady clock, a
-- message that is not empty and needs at most 128 continuation frames is sent: `tx` succeeds, and
-- what it gives to the driver is exactly the message's packets, in order.
pub tx-Sends :
    (d : Dev) (w : World) (cmd : ℕ) (buf : List ℕ)
    → IsReady w
    → IsSized d.tx_len
    → 0 < length buf
    → length buf ≤ (d.tx_len - 7) + 128 * (d.tx_len - 5)
    → Sends w (packets d cmd buf) tt (tx d cmd buf w)
unfolding tx packets
tx-Sends d w cmd buf h hs h0 hl =
    let n = d.tx_len - 7 in
    let count = min (length buf) n in
    let r = tx_preamble d cmd buf w in
    let first = tx_preamble-Sends d w cmd buf h hs in
    let pos : (count == 0) ≡ false = ground arith in
    let more =
      tx_loop-Sends 128 d 0 (drop n buf) r.1 (IsReady-Sends r h first) hs (omega arith)
        (omega (arith, length-drop n buf)) in
    rw (continue-ok _ r count first.done, pos, drop-min buf n) (Sends-Sends first more)

-- ===== src/Io/Message.antt =====
-- A whole message: the initialization frame behind whatever else the channel carries, and the rest.
use fido2_manage.Prelude.{
  ℕ, zero, suc, ◌+◌, ◌-◌, ◌*◌, ◌/◌, ◌%◌, ◌^◌, ◌≤◌, ◌<◌, ◌≡◌, ◌≢◌, refl, ap, ◌∙◌, true, false, List,
  [], ◌∷◌, ◌++◌, map, Option, some, length, take, drop, min, All, length-append, length-take,
  length-drop, length-map, take-append-drop, take_all, take-take, take-min, get_or, ltb,
  if◌then◌else◌, le32, bit_or, set_top_bit, Bool-cases, inl, inr, arith,
}
use fido2_manage.Platform.{World, ok, continue, continue-ok}
use fido2_manage.Time.Steady.{SteadyClock}
use fido2_manage.Device.{Dev}
use fido2_manage.Io.{
  pad_frame, frame_cid, frame_type, init_bcnth, init_bcntl, is_skipped, check_preamble, rx_frame,
  rx_preamble, rx_payload, rx,
}
use fido2_manage.Io.Frame.{through, length-through, get_or-through, body-through, frame_cid-through}
use fido2_manage.Io.Send.{IsSized, cont_packets, cont_packets_end, packets}
use fido2_manage.Io.Receive.{
  Reads, Reads-Reads, rx_frame-Reads, delivered, drop-wire, peer, rx_loop-Reads,
}

-- A report of another channel, or a keep-alive of this one.
abbrev pub IsNoise : Dev → List ℕ → Type 0
IsNoise d bs = (length bs ≡ d.rx_len) × (is_skipped d (pad_frame bs) ≡ true)

rx_preamble_step :
    (fuel : ℕ) (d : Dev) (cmd : ℕ) (w : World)
    → rx_preamble (suc fuel) d cmd w
      ≡ continue
          (λ fp. if is_skipped d fp then rx_preamble fuel d cmd else check_preamble d cmd fp)
          (rx_frame d w)
unfolding rx_preamble
rx_preamble_step fuel d cmd w = refl

-- Any number of such reports before the frame is skipped.
rx_preamble-Reads :
    (noise : List (List ℕ)) (fuel : ℕ) (d : Dev) (cmd : ℕ) (bs : List ℕ)
    (rest : List (Option (List ℕ))) (w : World)
    → SteadyClock w.clock
    → d.rx_len ≤ 64
    → length noise < fuel
    → All (IsNoise d) noise
    → length bs ≡ d.rx_len
    → is_skipped d (pad_frame bs) ≡ false
    → frame_cid (pad_frame bs) ≡ d.cid
    → frame_type (pad_frame bs) ≡ bit_or 0x80 cmd
    → w.incoming ≡ map some noise ++ (some bs ∷ rest)
    → Reads w rest (pad_frame bs) (rx_preamble fuel d cmd w)
rx_preamble-Reads noise zero d cmd bs rest w h hr hf hn hb hs hc ht hi = absurd (omega arith)
rx_preamble-Reads [] (suc fuel) d cmd bs rest w h hr hf hn hb hs hc ht hi =
    let r = rx_frame d w in
    let first = rx_frame-Reads d w bs rest h hr hb hi in
    let pass : check_preamble d cmd (pad_frame bs) r.1 ≡ (ok (pad_frame bs), r.1) =
      ground (arith, hc, ht) in
    rw (rx_preamble_step fuel d cmd w, continue-ok _ r (pad_frame bs) first.done, hs, pass)
      (record {
        done = refl;
        incoming = first.incoming;
        sent = first.sent;
        accepts = first.accepts;
        clock = first.clock;
      })
rx_preamble-Reads (x ∷ noise) (suc fuel) d cmd bs rest w h hr hf hn hb hs hc ht hi =
    let r = rx_frame d w in
    let first = rx_frame-Reads d w x (map some noise ++ (some bs ∷ rest)) h hr hn.0.0 hi in
    let more =
      rx_preamble-Reads noise fuel d cmd bs rest r.1 (λ i. rw first.clock (h i)) hr (omega arith)
        hn.1 hb hs hc ht first.incoming in
    rw (rx_preamble_step fuel d cmd w, continue-ok _ r (pad_frame x) first.done, hn.0.1)
      (Reads-Reads first more)

rx_step :
    (d : Dev) (cmd count : ℕ) (w : World)
    → IsSized d.rx_len
    → rx d cmd count w
      ≡ continue (λ f. rx_payload d count f) (rx_preamble (suc (length w.incoming)) d cmd w)
unfolding rx
rx_step d cmd count w h = ground arith

module _ (d : Dev) (sized : IsSized d.rx_len) (cid_word : d.cid < 2 ^ 32) where
  -- The initialization frame of a message is not skipped, and shows the command and the length.
  init_frame_lem :
      (cmd : ℕ) (buf : List ℕ)
      → cmd < 128
      → cmd ≢ 0x3b
      → length buf < 2 ^ 16
      → let f = through d.rx_len (
          le32 d.cid
          ++ (bit_or 0x80 cmd
              ∷ length buf / 256 % 256
              ∷ length buf % 256
              ∷ take (d.rx_len - 7) buf)) in
        (is_skipped d f ≡ false)
        × (frame_cid f ≡ d.cid)
        × (frame_type f ≡ bit_or 0x80 cmd)
        × (init_bcnth f * 256 + init_bcntl f ≡ length buf)
        × (take (min (length buf) (d.rx_len - 7)) (drop 7 f) ≡ take (d.rx_len - 7) buf)
  init_frame_lem cmd buf hc hk hl = (
    ground (arith, c, t, set_top_bit cmd hc),
    c,
    t,
    omega (arith, at 5 (omega arith), at 6 (omega arith)),
    body-through n bs 7 (min (length buf) (n - 7)) (omega arith) sized.1 (omega (arith, small))
          (omega (arith, small))
        ∙ take-take (min (length buf) (n - 7)) (n - 7) buf (omega arith)
        ∙ take-min buf (n - 7),
  )
    where
      n : ℕ
      n = d.rx_len

      bs : List ℕ
      bs =
          le32 d.cid
          ++ (bit_or 0x80 cmd ∷ length buf / 256 % 256 ∷ length buf % 256 ∷ take (n - 7) buf)

      small : length (take (n - 7) buf) ≡ min (length buf) (n - 7)
      small = length-take (n - 7) buf ∙ omega arith

      at : (i : ℕ) → i < 7 → get_or (through n bs) i 0 ≡ get_or bs i 0
      at i h = get_or-through n bs i (omega arith) sized.1 (omega arith) (omega (arith, small))

      c : frame_cid (through n bs) ≡ d.cid
      c =
          frame_cid-through n d.cid
            (bit_or 0x80 cmd ∷ length buf / 256 % 256 ∷ length buf % 256 ∷ take (n - 7) buf)
            (omega arith) sized.1 (omega (arith, small)) cid_word

      t : frame_type (through n bs) ≡ bit_or 0x80 cmd
      t = at 4 (omega arith)

  -- With the initialization frame in hand, the payload is put together.
  rx_payload-Reads :
      (cmd count : ℕ) (buf : List ℕ) (f : List ℕ) (more : List (Option (List ℕ))) (w : World)
      → SteadyClock w.clock
      → length buf ≤ count
      → length buf ≤ (d.rx_len - 7) + 128 * (d.rx_len - 5)
      → init_bcnth f * 256 + init_bcntl f ≡ length buf
      → take (min (length buf) (d.rx_len - 7)) (drop 7 f) ≡ take (d.rx_len - 7) buf
      → w.incoming ≡ delivered (cont_packets (peer d) 128 0 (drop (d.rx_len - 7) buf)) ++ more
      → Reads w more buf (rx_payload d count f w)
  unfolding rx_payload
  rx_payload-Reads cmd count buf f more w h hc hl hp hb hi =
      elim (Bool-cases (ltb (length buf) (d.rx_len - 7))) [
        | inl short ↦
            let s : length buf < d.rx_len - 7 = ground arith in
            let c : ltb count (length buf) ≡ false = ground arith in
            let m : min (length buf) (d.rx_len - 7) ≡ length buf = omega arith in
            let z : length (drop (d.rx_len - 7) buf) ≡ 0 =
              omega (arith, length-drop (d.rx_len - 7) buf) in
            let b : take (length buf) (drop 7 f) ≡ buf =
              (rw m at hb) ∙ take_all (d.rx_len - 7) buf (omega arith) in
            let i : w.incoming ≡ more =
              hi ∙ rw (cont_packets_end (peer d) 128 0 (drop (d.rx_len - 7) buf) z) refl in
            rw (hp, c, short, b)
              (record { done = refl; incoming = i; sent = refl; accepts = refl; clock = refl })
        | inr long ↦
            let s : d.rx_len - 7 ≤ length buf = ground arith in
            let c : ltb count (length buf) ≡ false = ground arith in
            let m : min (length buf) (d.rx_len - 7) ≡ d.rx_len - 7 = omega arith in
            let b : take (d.rx_len - 7) (drop 7 f) ≡ take (d.rx_len - 7) buf = rw m at hb in
            let l = length-drop (d.rx_len - 7) buf in
            let loop =
              rx_loop-Reads d sized cid_word 128 (suc (length buf)) 0 (length buf)
                (take (d.rx_len - 7) buf) (drop (d.rx_len - 7) buf) more w h
                (omega (arith, l, length-take (d.rx_len - 7) buf)) (omega (arith, l))
                (omega (arith, l)) hi in
            rw (hp, c, long, b) (rw (take-append-drop (d.rx_len - 7) buf) at loop)
      ]

  -- A message of at most `count` bytes that reaches the driver as its packets, behind any number of
  -- keep-alives and reports of other channels, is what `rx` returns; no more reports are taken.
  pub rx-Reads :
      (cmd count : ℕ) (buf : List ℕ) (noise : List (List ℕ)) (more : List (Option (List ℕ)))
      (w : World)
      → SteadyClock w.clock
      → cmd < 128
      → cmd ≢ 0x3b
      → length buf ≤ count
      → length buf < 2 ^ 16
      → length buf ≤ (d.rx_len - 7) + 128 * (d.rx_len - 5)
      → All (IsNoise d) noise
      → w.incoming ≡ map some noise ++ (delivered (packets (peer d) cmd buf) ++ more)
      → Reads w more buf (rx d cmd count w)
  unfolding packets
  rx-Reads cmd count buf noise more w h hc hk hn hl hf hz hi =
      let hdr =
        le32 d.cid
        ++ (bit_or 0x80 cmd
            ∷ length buf / 256 % 256
            ∷ length buf % 256
            ∷ take (d.rx_len - 7) buf) in
      let bs = take d.rx_len (pad_frame hdr) in
      let next = delivered (cont_packets (peer d) 128 0 (drop (d.rx_len - 7) buf)) ++ more in
      let size : length bs ≡ d.rx_len =
        length-through d.rx_len hdr sized.1 (omega (arith, length-take (d.rx_len - 7) buf)) in
      let (skip, cid, type, len, body) = init_frame_lem cmd buf hc hk hl in
      let here : w.incoming ≡ map some noise ++ (some bs ∷ next) = hi ∙ rw drop-wire refl in
      let first =
        rx_preamble-Reads noise (suc (length w.incoming)) d cmd bs next w h sized.1
          (omega (
            arith,
            ap length hi,
            length-append (map some noise) (delivered (packets (peer d) cmd buf) ++ more),
            length-map noise some,
          ))
          hz size skip cid type here in
      let r = rx_preamble (suc (length w.incoming)) d cmd w in
      let rest =
        rx_payload-Reads cmd count buf (pad_frame bs) more r.1 (λ i. rw first.clock (h i)) hn hf len
          body first.incoming in
      rw (rx_step d cmd count w sized, continue-ok _ r (pad_frame bs) first.done)
        (Reads-Reads first rest)

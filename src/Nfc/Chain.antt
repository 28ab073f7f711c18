-- ===== src/Nfc/Chain.antt =====
-- Command chaining: the short APDUs that carry a long command, and the card's view of them.
use fido2_manage.Prelude.{
  ℕ, zero, suc, ◌+◌, ◌-◌, ◌*◌, ◌/◌, ◌%◌, ◌^◌, ◌≤◌, ◌<◌, ◌≡◌, refl, ap, ◌∙◌, bit_or, true, false,
  List, [], ◌∷◌, ◌++◌, Option, some, length, take, drop, replicate, get_or, ltb, take_all,
  take-append, drop-append, take-append-drop, length-take, length-drop, length-append, append-nil,
  append_assoc, arith,
}
use fido2_manage.Platform.{World, Result, ok, io_write, io_read, continue-ok}
use fido2_manage.Device.{Dev}
use fido2_manage.Apdu.{iso7816_new}
use fido2_manage.Apdu.Layout.{new-Holds, add-Holds, apdu_bytes-Holds}
use fido2_manage.Buf.{fido_buf_read}
use fido2_manage.Nfc.{short_apdu, read_status, tx_short_apdu, tx_chain, nfc_do_tx, fido_nfc_tx}

-- The driver takes every APDU.
abbrev pub IsAccepting : World → Type 0
IsAccepting w = (s : List (List ℕ)) (p : List ℕ) → (n : ℕ) × (w.accepts s p ≡ some n)

-- The outcome of a read that is the status word 0x9000.
abbrev pub ok_status : Option (List ℕ)
ok_status = some (0x90 ∷ 0x00 ∷ [])

-- A call that succeeds, sends `ps`, and leaves `rest` to be read.
pub record Chains (w : World) (ps : List (List ℕ)) (rest : List (Option (List ℕ)))
    (r : Result (Unit {0}) × World) : Type 0 where
  pub done : r.0 ≡ ok tt
  pub sent : r.1.sent ≡ w.sent ++ ps
  pub incoming : r.1.incoming ≡ rest
  pub accepts : r.1.accepts ≡ w.accepts

-- The APDUs of a command: `k` full ones, marked as to be continued, and the last.
unfoldable pub chain : ℕ → List ℕ → List ℕ → List (List ℕ)
chain zero h payload = short_apdu h payload 0 ∷ []
chain (suc k) h payload = short_apdu h (take 240 payload) 0x10 ∷ chain k h (drop 240 payload)

last_apdu-Chains :
    (h payload : List ℕ) (w : World) (rest : List (Option (List ℕ)))
    → IsAccepting w
    → w.incoming ≡ rest
    → Chains w (short_apdu h payload 0 ∷ []) rest (tx_short_apdu h payload 0 w)
unfolding tx_short_apdu io_write
last_apdu-Chains h payload w rest a e = ground (arith, (a w.sent (short_apdu h payload 0)).1)

inner_apdu-Chains :
    (h payload : List ℕ) (w : World) (rest : List (Option (List ℕ)))
    → IsAccepting w
    → w.incoming ≡ ok_status ∷ rest
    → Chains w (short_apdu h payload 0x10 ∷ []) rest (tx_short_apdu h payload 0x10 w)
unfolding tx_short_apdu io_write io_read read_status
inner_apdu-Chains h payload w rest a e = ground (arith, (a w.sent (short_apdu h payload 0x10)).1)

tx_chain-Chains :
    (k fuel : ℕ) (h payload : List ℕ) (w : World) (rest : List (Option (List ℕ)))
    → IsAccepting w
    → length payload ≤ 240 * (k + 1)
    → 240 * k ≤ length payload - 1
    → k < fuel
    → w.incoming ≡ replicate k ok_status ++ rest
    → Chains w (chain k h payload) rest (tx_chain fuel h payload w)
unfolding tx_chain chain
tx_chain-Chains k zero h payload w rest a hl hk hf e = absurd (omega arith)
tx_chain-Chains zero (suc fuel) h payload w rest a hl hk hf e =
    let t : ltb 240 (length payload) ≡ false = ground arith in
    let m : length payload % 256 ≡ length payload = omega arith in
    rw (t, tx_chain)
      (rw (m, take_all (length payload) payload (omega arith))
        (last_apdu-Chains h payload w rest a e))
tx_chain-Chains (suc k) (suc fuel) h payload w rest a hl hk hf e =
    let t : ltb 240 (length payload) ≡ true = ground arith in
    let p = take 240 payload in
    let r = tx_short_apdu h p 0x10 w in
    let next = replicate k ok_status ++ rest in
    let first = inner_apdu-Chains h p w next a e in
    let more =
      tx_chain-Chains k fuel h (drop 240 payload) r.1 rest (λ q x. rw first.accepts (a q x))
        (omega (arith, length-drop 240 payload)) (omega (arith, length-drop 240 payload))
        (omega arith) first.incoming in
    rw (t, tx_chain)
      (rw (continue-ok (λ _. tx_chain fuel h (drop 240 payload)) r tt first.done) (record {
        done = more.done;
        sent =
            more.sent
            ∙ ap (λ l. l ++ chain k h (drop 240 payload)) first.sent
            ∙ append_assoc w.sent (short_apdu h p 0x10 ∷ []) (chain k h (drop 240 payload));
        incoming = more.incoming;
        accepts = more.accepts ∙ first.accepts;
      }))

-- The card's side: the data of an APDU, and of a chain of them.
abbrev pub apdu_data : List ℕ → List ℕ
apdu_data p = take (get_or p 4 0) (drop 5 p)

abbrev pub collect : List (List ℕ) → List ℕ
collect [] = []
collect (p ∷ ps) = apdu_data p ++ collect ps

-- Every APDU fits 246 bytes; all but the last have `cla` with the chaining bit, and the last has it
-- without.
abbrev pub IsChain : ℕ → List (List ℕ) → Type 0
IsChain cla [] = ⊥
IsChain cla (p ∷ []) = (length p ≤ 246) × (get_or p 0 0 ≡ bit_or cla 0)
IsChain cla (p ∷ q ∷ ps) =
    (length p ≤ 246) × (get_or p 0 0 ≡ bit_or cla 0x10) × IsChain cla (q ∷ ps)

apdu_data-short_apdu :
    (h payload : List ℕ) (flags : ℕ) → apdu_data (short_apdu h payload flags) ≡ payload
apdu_data-short_apdu h payload flags = take-append (length payload) payload (0 ∷ []) refl

collect-chain : (k : ℕ) (h payload : List ℕ) → collect (chain k h payload) ≡ payload
unfolding chain
collect-chain zero h payload =
    append-nil (apdu_data (short_apdu h payload 0)) ∙ apdu_data-short_apdu h payload 0
collect-chain (suc k) h payload =
    rw (apdu_data-short_apdu h (take 240 payload) 0x10, collect-chain k h (drop 240 payload))
      (take-append-drop 240 payload)

IsChain-cons :
    (cla : ℕ) (p : List ℕ) (ps : List (List ℕ))
    → length p ≤ 246
    → get_or p 0 0 ≡ bit_or cla 0x10
    → IsChain cla ps
    → IsChain cla (p ∷ ps)
IsChain-cons cla p [] hl hc h = absurd h
IsChain-cons cla p (q ∷ ps) hl hc h = (hl, hc, h)

chain-IsChain :
    (k : ℕ) (h payload : List ℕ)
    → length payload ≤ 240 * (k + 1)
    → IsChain (get_or h 0 0) (chain k h payload)
unfolding chain
chain-IsChain zero h payload hl =
    (omega (arith, length-append payload (let z : ℕ = 0 in z ∷ [])), refl)
chain-IsChain (suc k) h payload hl =
    IsChain-cons (get_or h 0 0) (short_apdu h (take 240 payload) 0x10)
      (chain k h (drop 240 payload))
      (omega (
        arith,
        length-append (take 240 payload) (let z : ℕ = 0 in z ∷ []),
        length-take 240 payload,
      ))
      refl (chain-IsChain k h (drop 240 payload) (omega (arith, length-drop 240 payload)))

-- The number of full APDUs that `n` bytes take.
abbrev pub full_apdus : ℕ → ℕ
full_apdus n = (n - 1) / 240

nfc_do_tx-Chains :
    (h payload : List ℕ) (w : World) (rest : List (Option (List ℕ)))
    → length h ≡ 7
    → IsAccepting w
    → w.incoming ≡ replicate (full_apdus (length payload)) ok_status ++ rest
    → Chains w
        (chain (full_apdus (length payload)) h payload)
        rest
        (nfc_do_tx (h ++ (payload ++ (0 ∷ 0 ∷ []))) w)
unfolding nfc_do_tx fido_buf_read
nfc_do_tx-Chains h payload w rest hh a e =
    let k = full_apdus (length payload) in
    let z : List ℕ = 0 ∷ 0 ∷ [] in
    let l = length-append payload z in
    let lh = length-append h (payload ++ z) in
    let t : ltb (length (h ++ (payload ++ z))) 7 ≡ false = ground (arith, lh) in
    let t2 : ltb (length (payload ++ z)) 2 ≡ false = ground (arith, l) in
    let n : length (payload ++ z) - 2 ≡ length payload = omega (arith, l) in
    rw
      (
        t,
        take-append 7 h (payload ++ z) hh,
        drop-append 7 h (payload ++ z) hh,
        t2,
        n,
        take-append (length payload) payload z refl,
      )
      (tx_chain-Chains k (suc (length (payload ++ z))) h payload w rest a (omega arith)
        (omega arith) (omega (arith, l)) e)

-- A CBOR command of at most 65535 bytes, sent to a card whose driver takes every APDU and whose card
-- acknowledges each APDU but the last: `fido_nfc_tx` succeeds, it sends one chain of short APDUs of
-- class 0x80 whose data, put together, are the command, and it reads the acknowledgements alone.
pub nfc_tx-cbor :
    (d : Dev) (buf : List ℕ) (w : World) (rest : List (Option (List ℕ)))
    → length buf < 2 ^ 16
    → IsAccepting w
    → w.incoming ≡ replicate (full_apdus (length buf)) ok_status ++ rest
    → (ps : List (List ℕ)) × Chains w ps rest (fido_nfc_tx d 0x10 buf w)
      × (collect ps ≡ buf)
      × IsChain 0x80 ps
unfolding fido_nfc_tx
nfc_tx-cbor d buf w rest hl a e =
    let k = full_apdus (length buf) in
    let hdr : List ℕ = 0x80 ∷ 0x10 ∷ 0 ∷ 0 ∷ 0 ∷ length buf / 256 % 256 ∷ length buf % 256 ∷ [] in
    let (b, added, holds) =
      add-Holds 0x80 0x10 0x00 (length buf) [] buf (iso7816_new 0x80 0x10 0x00 (length buf))
        (new-Holds 0x80 0x10 0x00 (length buf)) hl (omega arith) in
    let bytes = apdu_bytes-Holds 0x80 0x10 0x00 (length buf) buf b holds refl in
    let t : ltb 65535 (length buf) ≡ false = ground arith in
    (
      chain k hdr buf,
      rw (t, added, bytes) (nfc_do_tx-Chains hdr buf w rest refl a e),
      collect-chain k hdr buf,
      chain-IsChain k hdr buf (omega arith),
    )

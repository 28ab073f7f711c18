-- ===== src/Apdu/Layout.antt =====
-- The bytes of an APDU that was filled.
use fido2_manage.Prelude.{
  ℕ, suc, ◌+◌, ◌-◌, ◌/◌, ◌%◌, ◌^◌, ◌≤◌, ◌<◌, ◌≡◌, refl, sym, ap, ◌∙◌, List, [], ◌∷◌, ◌++◌, some,
  length, take, drop, replicate, take-append, drop-append, drop-drop, drop-replicate,
  take-append_ge, append_assoc, length-append, arith,
}
use fido2_manage.Apdu.{Apdu, header_bytes, iso7816_new, iso7816_add, apdu_bytes}

-- An APDU for `total` bytes, of which `body` were added: the memory holds them, and zeros.
pub record Holds (cla ins p1 total : ℕ) (body : List ℕ) (a : Apdu) : Type 0 where
  pub alloc : a.alloc_len ≡ 34 + total
  pub left : a.payload_len + length body ≡ total
  pub offset : a.offset ≡ length body
  pub header : header_bytes a.header ≡ cla ∷ ins ∷ p1 ∷ 0 ∷ 0 ∷ total / 256 % 256 ∷ total % 256 ∷ []
  pub memory : a.payload ≡ body ++ replicate (3 + total - length body) 0

pub new-Holds : (cla ins p1 total : ℕ) → Holds cla ins p1 total [] (iso7816_new cla ins p1 total)
unfolding iso7816_new
new-Holds cla ins p1 total = record {
  alloc = omega arith;
  left = omega arith;
  offset = refl;
  header = refl;
  memory = let e : 32 + total + 2 - 31 ≡ 3 + total - 0 = omega arith in rw e;
}

-- The bytes that fit are added; the memory keeps its length.
pub add-Holds :
    (cla ins p1 total : ℕ) (body buf : List ℕ) (a : Apdu)
    → Holds cla ins p1 total body a
    → total < 2 ^ 16
    → length body + length buf ≤ total
    → (b : Apdu) × (iso7816_add a buf ≡ some b) × Holds cla ins p1 total (body ++ buf) b
unfolding iso7816_add
add-Holds cla ins p1 total body buf a h ht hl =
    let n = length body in
    let m = length buf in
    let zeros = replicate (3 + total - n) (let z : ℕ = 0 in z) in
    let front : take a.offset a.payload ≡ body =
      rw (h.memory, h.offset) (take-append n body zeros refl) in
    let back : drop (a.offset + m) a.payload ≡ replicate (3 + total - (n + m)) 0 =
      let e : 3 + total - n - m ≡ 3 + total - (n + m) = omega arith in
      let d : drop m (drop n (body ++ zeros)) ≡ replicate (3 + total - n - m) 0 =
        rw (drop-append n body zeros refl)
          (drop-replicate m (3 + total - n) (let z : ℕ = 0 in z)) in
      rw (h.offset, h.memory, ← drop-drop n m (body ++ zeros)) (rw e at d) in
    (
      record a {
        payload = take a.offset a.payload ++ (buf ++ drop (a.offset + m) a.payload);
        offset = a.offset + m;
        payload_len = (a.payload_len - m) % 2 ^ 16;
      },
      ground (arith, h.left),
      record {
        alloc = h.alloc;
        left = omega (arith, h.left, length-append body buf);
        offset = omega (arith, h.offset, length-append body buf);
        header = h.header;
        memory = rw (front, back, length-append body buf) (sym (append_assoc body buf _));
      },
    )

-- A full APDU is its header, its bytes and two zero bytes: nothing more is transmitted.
pub apdu_bytes-Holds :
    (cla ins p1 total : ℕ) (body : List ℕ) (a : Apdu)
    → Holds cla ins p1 total body a
    → length body ≡ total
    → apdu_bytes a
      ≡ cla ∷ ins ∷ p1 ∷ 0 ∷ 0 ∷ total / 256 % 256 ∷ total % 256 ∷ (body ++ (0 ∷ 0 ∷ []))
unfolding apdu_bytes
apdu_bytes-Holds cla ins p1 total body a h hl =
    let zeros = replicate (3 + total - length body) (let z : ℕ = 0 in z) in
    let n : a.alloc_len - 24 - (32 - 31)
        ≡ suc (suc (suc (suc (suc (suc (suc (length body + 2))))))) =
      omega (arith, h.alloc) in
    let e : 3 + total - length body ≡ 3 = omega arith in
    let f : length body + 2 - length body ≡ 2 = omega arith in
    rw n (
      ap
        (λ (hb : List ℕ).
          take (suc (suc (suc (suc (suc (suc (suc (length body + 2)))))))) (hb ++ a.payload))
        h.header
      ∙ rw (h.memory, e, take-append_ge (length body + 2) body (0 ∷ 0 ∷ 0 ∷ []) (omega arith), f)
          refl)

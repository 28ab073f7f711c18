-- ===== src/Io/Frame.antt =====
-- The fields of a frame as the receiver reads them: a frame that was cut to the report's length and
-- stored in a zeroed frame again shows what the sender wrote.
use fido2_manage.Prelude.{
  ℕ, ◌+◌, ◌-◌, ◌^◌, ◌≤◌, ◌<◌, ◌≡◌, ◌∙◌, List, ◌++◌, take, drop, replicate, length, get_or,
  get_or-append, get_or-take, take-drop-take, take-drop-append, length-append, length-take,
  length-replicate, le32, arith,
}
use fido2_manage.Io.{pad_frame, frame_cid}

-- A frame after the trip through a report of `n` bytes.
abbrev pub through : ℕ → List ℕ → List ℕ
through n bs = pad_frame (take n (pad_frame bs))

pub length-through :
    (n : ℕ) (bs : List ℕ) → n ≤ 64 → length bs ≤ 64 → length (take n (pad_frame bs)) ≡ n
length-through n bs hn hb = omega (
  arith,
  length-take n (pad_frame bs),
  length-append bs (replicate (64 - length bs) 0),
  length-replicate (64 - length bs) (let z : ℕ = 0 in z),
)

pub get_or-through :
    (n : ℕ) (bs : List ℕ) (i : ℕ)
    → i < n
    → n ≤ 64
    → i < length bs
    → length bs ≤ 64
    → get_or (through n bs) i 0 ≡ get_or bs i 0
get_or-through n bs i hi hn hb hl =
    get_or-append (take n (pad_frame bs)) _ i 0 (omega (arith, length-through n bs hn hl))
    ∙ get_or-take n (pad_frame bs) i 0 hi
    ∙ get_or-append bs _ i 0 hb

pub body-through :
    (n : ℕ) (bs : List ℕ) (k m : ℕ)
    → k + m ≤ n
    → n ≤ 64
    → k + m ≤ length bs
    → length bs ≤ 64
    → take m (drop k (through n bs)) ≡ take m (drop k bs)
body-through n bs k m hk hn hb hl =
    take-drop-append m k (take n (pad_frame bs)) _ (omega (arith, length-through n bs hn hl))
    ∙ take-drop-take m k n (pad_frame bs) hk
    ∙ take-drop-append m k bs _ hb

-- The channel is read back, on every frame with a head of at least four bytes.
pub frame_cid-through :
    (n cid : ℕ) (rest : List ℕ)
    → 4 ≤ n
    → n ≤ 64
    → length rest ≤ 60
    → cid < 2 ^ 32
    → frame_cid (through n (le32 cid ++ rest)) ≡ cid
frame_cid-through n cid rest h4 hn hl hc = omega (
  arith,
  get_or-through n (le32 cid ++ rest) 0 (omega arith) hn (omega arith) (omega arith),
  get_or-through n (le32 cid ++ rest) 1 (omega arith) hn (omega arith) (omega arith),
  get_or-through n (le32 cid ++ rest) 2 (omega arith) hn (omega arith) (omega arith),
  get_or-through n (le32 cid ++ rest) 3 (omega arith) hn (omega arith) (omega arith),
)

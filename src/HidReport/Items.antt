-- ===== src/HidReport/Items.antt =====
-- A report descriptor as a list of items, and its bytes.
use fido2_manage.Prelude.{
  ℕ, zero, suc, ◌+◌, ◌*◌, ◌/◌, ◌%◌, ◌≤◌, ◌<◌, ◌≡◌, refl, bit_and, true, false, ◌&&◌, List, [], ◌∷◌,
  ◌++◌, some, length, length-append, All, IsByte, ltb, ◌==◌, exceptions, exceptions-none, arith,
}
use fido2_manage.HidReport.{get_key_len, get_key_val, next_item, walk}

-- A short item: its key, and its data bytes.
pub record Item : Type 0 where
  pub key : ℕ
  pub body : List ℕ

-- The key is the tag without its two length bits; keys from 0xf0 on are reserved.
pub record IsItem (i : Item) : Type 0 where
  pub multiple : i.key % 4 ≡ 0
  pub reserved : i.key < 0xf0
  pub short : length i.body ≤ 2
  pub bytes : All IsByte i.body

-- The data bytes as a number, the lowest first.
abbrev pub value_of : List ℕ → ℕ
value_of [] = 0
value_of (b ∷ bs) = b + 256 * value_of bs

abbrev pub encode : List Item → List ℕ
encode [] = []
encode (i ∷ is) = (i.key + length i.body) ∷ (i.body ++ encode is)

-- What a loop over the items would do, with no bytes in sight.
abbrev pub fold {ℓ} : {S : Type ℓ} → (ℕ → ℕ → S → S) → List Item → S → S
fold body [] s = s
fold body (i ∷ is) s = fold body is (body i.key (value_of i.body) s)

tag_table : exceptions (λ t. (bit_and t 0xfc == t / 4 * 4) && (bit_and t 0x3 == t % 4)) 256 ≡ []
unfolding exceptions
tag_table = refl

reserved_table : exceptions (λ k. ltb (bit_and k 0xf0) 0xf0) 240 ≡ []
unfolding exceptions
reserved_table = refl

pub tag_key : (t : ℕ) → t < 256 → (bit_and t 0xfc ≡ t / 4 * 4) × (bit_and t 0x3 ≡ t % 4)
tag_key t h =
    let e =
      exceptions-none (λ t. (bit_and t 0xfc == t / 4 * 4) && (bit_and t 0x3 == t % 4)) 256 _
        tag_table h in
    (ground (arith, e), ground (arith, e))

pub not_reserved : (k : ℕ) → k < 0xf0 → (bit_and k 0xf0 == 0xf0) ≡ false
not_reserved k h =
    let e = exceptions-none (λ k. ltb (bit_and k 0xf0) 0xf0) 240 _ reserved_table h in
    ground (arith, e)

pub get_key_len_lem :
    (key len : ℕ) → key % 4 ≡ 0 → key < 0xf0 → len ≤ 2 → get_key_len (key + len) ≡ some (key, len)
unfolding get_key_len
get_key_len_lem key len hm hr hl =
    ground (arith, tag_key (key + len) (omega arith), not_reserved key hr)

item_lem :
    (key : ℕ) (body rest : List ℕ)
    → key % 4 ≡ 0
    → key < 0xf0
    → length body ≤ 2
    → next_item (key + length body) (body ++ rest) ≡ some (key, value_of body, rest)
unfolding next_item get_key_val
item_lem key [] rest hm hr hl = ground (arith, get_key_len_lem key 0 hm hr)
item_lem key (a ∷ []) rest hm hr hl = ground (arith, get_key_len_lem key 1 hm hr)
item_lem key (a ∷ b ∷ []) rest hm hr hl = ground (arith, get_key_len_lem key 2 hm hr)
item_lem key (a ∷ b ∷ c ∷ body) rest hm hr hl = absurd (omega arith)

-- An item in front of any bytes is read as its key and its value, and the bytes are left.
pub next_item-encode :
    (i : Item) (rest : List ℕ)
    → IsItem i
    → next_item (i.key + length i.body) (i.body ++ rest) ≡ some (i.key, value_of i.body, rest)
next_item-encode i rest h = item_lem i.key i.body rest h.multiple h.reserved h.short

-- The walk over the bytes of a list of items, on enough fuel, is the loop over the items.
pub walk-encode {ℓ} :
    {S : Type ℓ} (body : ℕ → ℕ → S → S) (is : List Item) (fuel : ℕ) (s : S)
    → All IsItem is
    → length is ≤ fuel
    → walk body fuel (encode is) s ≡ some (true, fold body is s)
unfolding walk
walk-encode body [] zero s h hf = refl
walk-encode body [] (suc fuel) s h hf = refl
walk-encode body (i ∷ is) zero s h hf = absurd (omega arith)
walk-encode body (i ∷ is) (suc fuel) s h hf =
    rw (next_item-encode i (encode is) h.0, walk)
      (walk-encode body is fuel (body i.key (value_of i.body) s) h.1 (omega arith))

pub length-encode : (is : List Item) → length is ≤ length (encode is)
length-encode [] = omega arith
length-encode (i ∷ is) = omega (arith, length-append i.body (encode is), length-encode is)

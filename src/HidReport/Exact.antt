-- ===== src/HidReport/Exact.antt =====
-- The descriptors that the two functions accept are the encodings of lists of items, and no others.
use fido2_manage.Prelude.{
  ℕ, zero, suc, ◌+◌, ◌*◌, ◌/◌, ◌%◌, ◌≤◌, ◌<◌, ◌≡◌, ◌≢◌, refl, ap, ◌∙◌, sym, bit_and, Bool, true,
  false, List, [], ◌∷◌, ◌++◌, Option, none, some, length, drop, All, IsByte, ltb, leb, take, ◌==◌,
  exceptions, exceptions-none, Bool-cases, inl, inr, arith, if◌then◌else◌, ◌&&◌, ap₂, ◌↔◌,
  length-take, length-drop, take-append-drop, All-take, All-drop,
}
use fido2_manage.HidReport.{
  get_key_len, get_key_val, next_item, walk, usage_body, report_body, ReportLen, fido_hid_get_usage,
  fido_hid_get_report_len,
}
use fido2_manage.HidReport.Items.{
  Item, IsItem, value_of, encode, fold, tag_key, walk-encode, length-encode,
}
use fido2_manage.HidReport.Last.{
  usage_page, report_count, input, output, IsLast, IsSizeAt, usage-IsLast, IsLast-usage,
  report-AreSizes, AreSizes-report,
}

-- What a read item was made of.
record FirstItem (tag : ℕ) (rest : List ℕ) (key val : ℕ) (left : List ℕ) : Type 0 where
  item : Item
  valid : IsItem item
  key_is : item.key ≡ key
  val_is : value_of item.body ≡ val
  tag_is : tag ≡ item.key + length item.body
  rest_is : rest ≡ item.body ++ left

reserved_table :
    exceptions (λ t. if bit_and (bit_and t 0xfc) 0xf0 == 0xf0 then leb 0xf0 t else ltb t 0xf0) 256
    ≡ []
unfolding exceptions
reserved_table = refl

get_key_len-byte :
    (tag : ℕ)
    → tag < 256
    → get_key_len tag
      ≡ (if ltb tag 0xf0 then some (tag / 4 * 4, (if tag % 4 == 3 then 4 else tag % 4)) else none)
unfolding get_key_len
get_key_len-byte tag h = ground (
  arith,
  tag_key tag h,
  exceptions-none (λ t. if bit_and (bit_and t 0xfc) 0xf0 == 0xf0 then leb 0xf0 t else ltb t 0xf0)
      256 _ reserved_table h,
)

-- What is left to do once the tag is split: `m` is its two length bits.
abbrev after_tag : ℕ → ℕ → List ℕ → Option (ℕ × ℕ × List ℕ)
after_tag key m rest =
    let len = if m == 3 then 4 else m in
    if ltb (length rest) len
    then none
    else elim (get_key_val rest len) [ none ↦ none | some val ↦ some (key, val, drop len rest) ]

after_tag_lem :
    (key m : ℕ) (rest : List ℕ)
    → m < 4
    → after_tag key m rest ≡ (
        if ltb m 3 && leb m (length rest)
        then some (key, value_of (take m rest), drop m rest)
        else none)
unfolding get_key_val
after_tag_lem key zero rest h = ground arith
after_tag_lem key (suc zero) [] h = refl
after_tag_lem key (suc zero) (a ∷ rest) h = ground arith
after_tag_lem key (suc (suc zero)) [] h = refl
after_tag_lem key (suc (suc zero)) (a ∷ []) h = refl
after_tag_lem key (suc (suc zero)) (a ∷ b ∷ rest) h = ground arith
after_tag_lem key (suc (suc (suc zero))) rest h = ground arith
after_tag_lem key (suc (suc (suc (suc m)))) rest h = absurd (omega arith)

-- A read item in arithmetic, for a tag that is a byte.
next_item-byte :
    (tag : ℕ) (rest : List ℕ)
    → tag < 256
    → next_item tag rest ≡ (
        if ltb tag 0xf0 && (ltb (tag % 4) 3 && leb (tag % 4) (length rest))
        then some (tag / 4 * 4, value_of (take (tag % 4) rest), drop (tag % 4) rest)
        else none)
unfolding next_item
next_item-byte tag rest h = elim (Bool-cases (ltb tag 0xf0)) [
  | inl low ↦
      rw (get_key_len-byte tag h, next_item)
        (rw low (after_tag_lem (tag / 4 * 4) (tag % 4) rest (omega arith)))
  | inr high ↦ rw (get_key_len-byte tag h, next_item) (rw high refl)
]

-- The item that a tag and the bytes behind it make.
abbrev item_at : ℕ → List ℕ → Item
item_at tag rest = record { key = tag / 4 * 4; body = take (tag % 4) rest }

abbrev is_item_at : ℕ → List ℕ → Bool
is_item_at tag rest = ltb tag 0xf0 && (ltb (tag % 4) 3 && leb (tag % 4) (length rest))

walk_step :
    {S : Type 0} (body : ℕ → ℕ → S → S) (fuel tag : ℕ) (rest : List ℕ) (s : S)
    → tag < 256
    → walk body (suc fuel) (tag ∷ rest) s ≡ (
        if is_item_at tag rest
        then walk body fuel
            (drop (tag % 4) rest)
            (body (item_at tag rest).key (value_of (item_at tag rest).body) s)
        else some (false, s))
unfolding walk
walk_step body fuel tag rest s h = elim (Bool-cases (is_item_at tag rest)) [
  | inl good ↦ rw (next_item-byte tag rest h, walk) (rw good refl)
  | inr bad ↦ rw (next_item-byte tag rest h, walk) (rw bad refl)
]

item_at-IsItem :
    (tag : ℕ) (rest : List ℕ)
    → is_item_at tag rest ≡ true
    → All IsByte rest
    → IsItem (item_at tag rest)
item_at-IsItem tag rest h hb = record {
  multiple = omega arith;
  reserved = ground arith;
  short = ground (arith, length-take (tag % 4) rest);
  bytes = All-take IsByte (tag % 4) rest hb;
}

walk-exact :
    {S : Type 0} (body : ℕ → ℕ → S → S) (fuel : ℕ) (bs : List ℕ) (s s' : S)
    → All IsByte bs
    → walk body fuel bs s ≡ some (true, s')
    → (is : List Item) × (All IsItem is) × (bs ≡ encode is) × (s' ≡ fold body is s)
walk-exact body zero [] s s' h e = ([], tt, refl, unfold walk in cc)
walk-exact body (suc fuel) [] s s' h e = ([], tt, refl, unfold walk in cc)
walk-exact body zero (tag ∷ rest) s s' h e = absurd (unfold walk in cc)
walk-exact body (suc fuel) (tag ∷ rest) s s' h e = elim (Bool-cases (is_item_at tag rest)) [
  | inr bad ↦ absurd (ground (arith, walk_step body fuel tag rest s h.0))
  | inl good ↦
      let i = item_at tag rest in
      let next = sym (walk_step body fuel tag rest s h.0) ∙ e in
      let (is, valid, bytes, result) =
        walk-exact body fuel (drop (tag % 4) rest) (body i.key (value_of i.body) s) s'
          (All-drop IsByte (tag % 4) rest h.1) (rw good at next) in
      let size : length i.body ≡ tag % 4 = ground (arith, length-take (tag % 4) rest) in
      let head : tag ≡ i.key + length i.body = omega (arith, size) in
      let tail : rest ≡ i.body ++ encode is =
        sym (take-append-drop (tag % 4) rest) ∙ ap (λ t. i.body ++ t) bytes in
      (i ∷ is, (item_at-IsItem tag rest good h.1, valid), ap₂ ◌∷◌ head tail, result)
]

-- Total: on as much fuel as there are bytes the walk never runs out of it.
walk-ne-none :
    {S : Type 0} (body : ℕ → ℕ → S → S) (fuel : ℕ) (bs : List ℕ) (s : S)
    → All IsByte bs
    → length bs ≤ fuel
    → walk body fuel bs s ≢ none
walk-ne-none body zero [] s h hf = unfold walk in λ e. cc
walk-ne-none body (suc fuel) [] s h hf = unfold walk in λ e. cc
walk-ne-none body zero (tag ∷ rest) s h hf = absurd (omega arith)
walk-ne-none body (suc fuel) (tag ∷ rest) s h hf = elim (Bool-cases (is_item_at tag rest)) [
  | inr bad ↦ rw (walk_step body fuel tag rest s h.0, bad) (λ e. cc)
  | inl good ↦
      rw (walk_step body fuel tag rest s h.0, good)
        (walk-ne-none body fuel (drop (tag % 4) rest) _ (All-drop IsByte (tag % 4) rest h.1)
          (omega (arith, length-drop (tag % 4) rest)))
]

-- On every sequence of bytes `fido_hid_get_usage` ends. It returns 0 exactly on the encodings of
-- lists of short items, and the usage page is then the value of the last usage page item, or as it was
-- if there is none.
pub get_usage-exact :
    (bs : List ℕ) (page : ℕ)
    → All IsByte bs
    → (fido_hid_get_usage bs page ≢ none)
      × ((page' : ℕ)
          → (fido_hid_get_usage bs page ≡ some (true, page')) ↔ (
              (is : List Item) × (All IsItem is)
              × (bs ≡ encode is)
              × IsLast usage_page page is page'))
unfolding fido_hid_get_usage
get_usage-exact bs page h = (
  walk-ne-none usage_body (length bs) bs page h (omega arith),
  λ page'. (
    λ e.
        let p = walk-exact usage_body (length bs) bs page page' h e in
        (p.0, p.1, p.2, rw (p.3) (usage-IsLast p.0 page)),
    λ p.
        rw (p.2, IsLast-usage p.0 page page' p.3)
          (walk-encode usage_body p.0 (length (encode p.0)) page p.1 (length-encode p.0)),
  ),
)

-- The same for `fido_hid_get_report_len`: it returns 0 exactly on the encodings of lists of short
-- items, and each out parameter is then the value of the last report count before the last input or
-- output item, 0 if there is none, and as it was without such an item. The local `report_size` ends as
-- the last report count.
pub get_report_len-exact :
    (bs : List ℕ) (in_len out_len : ℕ)
    → All IsByte bs
    → (fido_hid_get_report_len bs in_len out_len ≢ none)
      × ((s : ReportLen)
          → (fido_hid_get_report_len bs in_len out_len ≡ some (true, s)) ↔ (
              (is : List Item) × (All IsItem is)
              × (bs ≡ encode is)
              × IsLast report_count 0 is s.report_size
              × IsSizeAt input 0 in_len is s.report_in_len
              × IsSizeAt output 0 out_len is s.report_out_len))
unfolding fido_hid_get_report_len
get_report_len-exact bs in_len out_len h =
    let start : ReportLen = record {
      report_size = 0;
      report_in_len = in_len;
      report_out_len = out_len;
    } in
    (
      walk-ne-none report_body (length bs) bs start h (omega arith),
      λ s. (
        λ e.
            let p = walk-exact report_body (length bs) bs start s h e in
            let l = report-AreSizes p.0 start in
            (p.0, p.1, p.2, rw (p.3) (l.0), rw (p.3) (l.1), rw (p.3) (l.2)),
        λ p.
            rw (p.2, AreSizes-report p.0 start s (p.3, p.4, p.5))
              (walk-encode report_body p.0 (length (encode p.0)) start p.1 (length-encode p.0)),
      ),
    )

-- ===== src/HidReport.antt =====
-- src/hid.c: the walk over a HID report descriptor that finds a device's usage page and the lengths
-- of its reports. Only short items of 0, 1 or 2 data bytes are accepted.
pub mod Items
pub mod Last
pub mod Exact
mod Tests
use fido2_manage.Prelude.{
  ℕ, zero, suc, ◌+◌, ◌*◌, bit_and, Bool, true, false, ◌||◌, List, [], ◌∷◌, Option, none, some,
  length, drop, get_or, ltb, ◌==◌, if◌then◌else◌,
}

-- `*key` and `*key_len`; `none` is the C value -1.
unfoldable pub get_key_len : ℕ → Option (ℕ × ℕ)
get_key_len tag =
    let key = bit_and tag 0xfc in
    let len = bit_and tag 0x3 in
    if bit_and key 0xf0 == 0xf0 then none else some (key, (if len == 3 then 4 else len))

-- `*val`; `none` is the C value -1. The two bytes of the longer form do not overlap.
unfoldable pub get_key_val : List ℕ → ℕ → Option ℕ
get_key_val body key_len =
    if key_len == 0
    then some 0
    else if key_len == 1
    then some (get_or body 0 0)
    else if key_len == 2
    then some (get_or body 1 0 * 256 + get_or body 0 0)
    else none

-- The three calls at the head of both loops: the item's key, its value, and the bytes that follow
-- it. `rest` is what comes after the tag.
unfoldable pub next_item : ℕ → List ℕ → Option (ℕ × ℕ × List ℕ)
unfolding get_key_len get_key_val
next_item tag rest = elim (get_key_len tag) [
  | none ↦ none
  | some (key, key_len) ↦
      if ltb (length rest) key_len then none else elim (get_key_val rest key_len) [
        | none ↦ none
        | some val ↦ some (key, val, drop key_len rest)
      ]
]

-- The C value (`true` for 0, `false` for -1) and what the out parameters hold then. `none` is no C
-- value: the fuel ran out.
abbrev pub Outcome : Type 0 → Type 0
Outcome S = Option (Bool × S)

-- Both loops: `body` is what the round does with an item. A round takes a byte at least.
unfoldable pub walk {ℓ} : {S : Type ℓ} → (ℕ → ℕ → S → S) → ℕ → List ℕ → S → Option (Bool × S)
walk body fuel [] s = some (true, s)
walk body zero (tag ∷ rest) s = none
walk body (suc fuel) (tag ∷ rest) s = elim (next_item tag rest) [
  | none ↦ some (false, s)
  | some (key, val, rest') ↦ walk body fuel rest' (body key val s)
]

-- `if (key == 0x4) *usage_page = key_val;`
abbrev pub usage_body : ℕ → ℕ → ℕ → ℕ
usage_body key val page = if key == 0x4 then val else page

unfoldable pub fido_hid_get_usage : List ℕ → ℕ → Outcome ℕ
fido_hid_get_usage report page = walk usage_body (length report) report page

-- The local `report_size` and the two out parameters.
pub record ReportLen : Type 0 where
  pub report_size : ℕ
  pub report_in_len : ℕ
  pub report_out_len : ℕ

abbrev pub report_body : ℕ → ℕ → ReportLen → ReportLen
report_body key val s =
    if key == 0x94
    then record s { report_size = val }
    else if key == 0x80
    then record s { report_in_len = s.report_size }
    else if key == 0x90
    then record s { report_out_len = s.report_size }
    else s

unfoldable pub fido_hid_get_report_len : List ℕ → ℕ → ℕ → Outcome ReportLen
fido_hid_get_report_len report in_len out_len =
    walk report_body (length report) report
      (record { report_size = 0; report_in_len = in_len; report_out_len = out_len })

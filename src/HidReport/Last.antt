-- ===== src/HidReport/Last.antt =====
-- What a report descriptor says of the usage page and of the lengths of the reports.
use fido2_manage.Prelude.{
  ℕ, ◌≡◌, ◌≢◌, refl, sym, ap, subst, List, [], ◌∷◌, ◌++◌, All, ◌==◌, ==_iff, Bool-cases, inl, inr,
  arith, ◌∙◌, if◌then◌else◌,
}
use fido2_manage.HidReport.{usage_body, ReportLen, report_body}
use fido2_manage.HidReport.Items.{Item, value_of, fold}

-- The keys of the items of one kind, by the HID specification.
abbrev pub usage_page : ℕ
usage_page = 0x04

abbrev pub report_count : ℕ
report_count = 0x94

abbrev pub input : ℕ
input = 0x80

abbrev pub output : ℕ
output = 0x90

abbrev pub Lacks : ℕ → List Item → Type 0
Lacks key = All (λ (i : Item). i.key ≢ key)

-- The value of the last item with a key, or what is there before.
pub data IsLast (key start : ℕ) : List Item → ℕ → Type 0 where
  absent : (is : List Item) → Lacks key is → IsLast key start is start
  present :
      (front : List Item) (i : Item) (back : List Item)
      → i.key ≡ key
      → Lacks key back
      → IsLast key start (front ++ (i ∷ back)) (value_of i.body)

-- The report count in force at the last item with a key, or what is there before.
pub data IsSizeAt (key size start : ℕ) : List Item → ℕ → Type 0 where
  no_item : (is : List Item) → Lacks key is → IsSizeAt key size start is start
  at_item :
      (front : List Item) (i : Item) (back : List Item) (count : ℕ)
      → i.key ≡ key
      → Lacks key back
      → IsLast report_count size front count
      → IsSizeAt key size start (front ++ (i ∷ back)) count

-- An item in front changes what is there before.
abbrev value_at : ℕ → Item → ℕ → ℕ
value_at key i start = if i.key == key then value_of i.body else start

IsLast-cons :
    (key start : ℕ) (i : Item) (is : List Item) (v : ℕ)
    → IsLast key (value_at key i start) is v
    → IsLast key start (i ∷ is) v
IsLast-cons key start i _ _ (absent is h) = elim (Bool-cases (i.key == key)) [
  | inl same ↦ rw same (present [] i is ((==_iff i.key key).0 same) h)
  | inr differs ↦ rw differs (absent (i ∷ is) (ground (arith, differs), h))
]
IsLast-cons key start i _ _ (present front j back e h) = present (i ∷ front) j back e h

IsSizeAt-cons :
    (key size start : ℕ) (i : Item) (is : List Item) (v : ℕ)
    → IsSizeAt key (value_at report_count i size) (if i.key == key then size else start) is v
    → IsSizeAt key size start (i ∷ is) v
IsSizeAt-cons key size start i _ _ (no_item is h) = elim (Bool-cases (i.key == key)) [
  | inl same ↦ rw same (at_item [] i is size ((==_iff i.key key).0 same) h (absent [] tt))
  | inr differs ↦ rw differs (no_item (i ∷ is) (ground (arith, differs), h))
]
IsSizeAt-cons key size start i _ _ (at_item front j back count e h last) =
    at_item (i ∷ front) j back count e h (IsLast-cons report_count size i front count last)

pub usage-IsLast : (is : List Item) (page : ℕ) → IsLast usage_page page is (fold usage_body is page)
usage-IsLast [] page = absent [] tt
usage-IsLast (i ∷ is) page =
    IsLast-cons usage_page page i is _ (usage-IsLast is (usage_body i.key (value_of i.body) page))

IsSizeAt-same :
    (key : ℕ) (is : List Item) {size size' start start' v : ℕ}
    → IsSizeAt key size start is v
    → size ≡ size'
    → start ≡ start'
    → IsSizeAt key size' start' is v
IsSizeAt-same key is {size} {size'} {start} {start'} {v} h e e' =
    subst (λ n. IsSizeAt key n start' is v) e (subst (λ n. IsSizeAt key size n is v) e' h)

-- What one item changes.
size_step :
    (i : Item) (s : ReportLen)
    → (report_body i.key (value_of i.body) s).report_size ≡ value_at report_count i s.report_size
size_step i s = ground arith

in_step :
    (i : Item) (s : ReportLen)
    → (report_body i.key (value_of i.body) s).report_in_len
      ≡ (if i.key == input then s.report_size else s.report_in_len)
in_step i s = ground arith

out_step :
    (i : Item) (s : ReportLen)
    → (report_body i.key (value_of i.body) s).report_out_len
      ≡ (if i.key == output then s.report_size else s.report_out_len)
out_step i s = ground arith

pub report-AreSizes :
    (is : List Item) (s : ReportLen)
    → IsLast report_count s.report_size is (fold report_body is s).report_size
      × IsSizeAt input s.report_size s.report_in_len is (fold report_body is s).report_in_len
      × IsSizeAt output s.report_size s.report_out_len is (fold report_body is s).report_out_len
report-AreSizes [] s = (absent [] tt, no_item [] tt, no_item [] tt)
report-AreSizes (i ∷ is) s =
    let s' = report_body i.key (value_of i.body) s in
    let size : s'.report_size ≡ value_at report_count i s.report_size = size_step i s in
    let rest = report-AreSizes is s' in
    (
      IsLast-cons report_count s.report_size i is _
          (subst (λ n. IsLast report_count n is (fold report_body is s').report_size) size rest.0),
      IsSizeAt-cons input s.report_size s.report_in_len i is _
          (IsSizeAt-same input is rest.1 size (in_step i s)),
      IsSizeAt-cons output s.report_size s.report_out_len i is _
          (IsSizeAt-same output is rest.2 size (out_step i s)),
    )

-- The loops over the items, on the parts of a list.
fold-append :
    {S : Type 0} (body : ℕ → ℕ → S → S) (xs ys : List Item) (s : S)
    → fold body (xs ++ ys) s ≡ fold body ys (fold body xs s)
fold-append body [] ys s = refl
fold-append body (i ∷ xs) ys s = fold-append body xs ys (body i.key (value_of i.body) s)

abbrev step : ℕ → ℕ → ℕ → ℕ → ℕ
step key k v s = if k == key then v else s

Lacks-step : (key : ℕ) (is : List Item) (s : ℕ) → Lacks key is → fold (step key) is s ≡ s
Lacks-step key [] s h = refl
Lacks-step key (i ∷ is) s h =
    let same : step key i.key (value_of i.body) s ≡ s = ground (arith, h.0) in
    rw same (Lacks-step key is s h.1)

IsLast-step :
    (key start : ℕ) (is : List Item) (v : ℕ) → IsLast key start is v → fold (step key) is start ≡ v
IsLast-step key start _ _ (absent is h) = Lacks-step key is start h
IsLast-step key start _ _ (present front i back e h) =
    let found : step key i.key (value_of i.body) (fold (step key) front start) ≡ value_of i.body =
      ground (arith, e) in
    fold-append (step key) front (i ∷ back) start
    ∙ ap (fold (step key) back) found
    ∙ Lacks-step key back (value_of i.body) h

-- There is one such value.
pub IsLast-usage :
    (is : List Item) (page page' : ℕ)
    → IsLast usage_page page is page'
    → page' ≡ fold usage_body is page
IsLast-usage is page page' h = sym (IsLast-step usage_page page is page' h)

size_fold :
    (is : List Item) (s : ReportLen)
    → (fold report_body is s).report_size ≡ fold (step report_count) is s.report_size
size_fold [] s = refl
size_fold (i ∷ is) s =
    size_fold is (report_body i.key (value_of i.body) s)
    ∙ ap (fold (step report_count) is) (size_step i s)

Lacks-in :
    (is : List Item) (s : ReportLen)
    → Lacks input is
    → (fold report_body is s).report_in_len ≡ s.report_in_len
Lacks-in [] s h = refl
Lacks-in (i ∷ is) s h =
    Lacks-in is (report_body i.key (value_of i.body) s) h.1 ∙ (in_step i s ∙ ground (arith, h.0))

Lacks-out :
    (is : List Item) (s : ReportLen)
    → Lacks output is
    → (fold report_body is s).report_out_len ≡ s.report_out_len
Lacks-out [] s h = refl
Lacks-out (i ∷ is) s h =
    Lacks-out is (report_body i.key (value_of i.body) s) h.1 ∙ (out_step i s ∙ ground (arith, h.0))

IsSizeAt-in :
    (is : List Item) (s : ReportLen) (start v : ℕ)
    → IsSizeAt input s.report_size start is v
    → start ≡ s.report_in_len
    → v ≡ (fold report_body is s).report_in_len
IsSizeAt-in _ s start _ (no_item is h) e = e ∙ sym (Lacks-in is s h)
IsSizeAt-in _ s start _ (at_item front i back count k h last) e =
    let s' = fold report_body front s in
    let size = size_fold front s ∙ IsLast-step report_count s.report_size front count last in
    let split = fold-append report_body front (i ∷ back) s in
    rw split
      (sym (Lacks-in back (report_body i.key (value_of i.body) s') h ∙ ground (arith, k, size)))

IsSizeAt-out :
    (is : List Item) (s : ReportLen) (start v : ℕ)
    → IsSizeAt output s.report_size start is v
    → start ≡ s.report_out_len
    → v ≡ (fold report_body is s).report_out_len
IsSizeAt-out _ s start _ (no_item is h) e = e ∙ sym (Lacks-out is s h)
IsSizeAt-out _ s start _ (at_item front i back count k h last) e =
    let s' = fold report_body front s in
    let size = size_fold front s ∙ IsLast-step report_count s.report_size front count last in
    let split = fold-append report_body front (i ∷ back) s in
    rw split
      (sym (Lacks-out back (report_body i.key (value_of i.body) s') h ∙ ground (arith, k, size)))

-- There is one such outcome.
pub AreSizes-report :
    (is : List Item) (start s : ReportLen)
    → IsLast report_count start.report_size is s.report_size
      × IsSizeAt input start.report_size start.report_in_len is s.report_in_len
      × IsSizeAt output start.report_size start.report_out_len is s.report_out_len
    → s ≡ fold report_body is start
AreSizes-report is start s h =
    let size =
      sym (IsLast-step report_count start.report_size is _ h.0) ∙ sym (size_fold is start) in
    let in_len = IsSizeAt-in is start _ _ h.1 refl in
    let out_len = IsSizeAt-out is start _ _ h.2 refl in
    λ j. record { report_size = size j; report_in_len = in_len j; report_out_len = out_len j }

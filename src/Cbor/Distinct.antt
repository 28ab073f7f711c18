-- ===== src/Cbor/Distinct.antt =====
-- src/cbor.c: a map that is accepted has no key twice.
use fido2_manage.Prelude.{
  ℕ, ◌≡◌, ◌≢◌, refl, subst, sym, Bool, true, false, List, [], ◌∷◌, Option, none, some, arith,
}
use fido2_manage.Cbor.{
  Value, string, indefinite_string, sorted_strings, Pairs, Parser, ctap_check_cbor, check_key_type,
  before, in_order, map_loop, cbor_map_iter,
}

before_trans : (a b c : List ℕ) → before a b ≡ true → before b c ≡ true → before a c ≡ true
unfolding before
before_trans [] b c h k = cc
before_trans (x ∷ xs) [] c h k = cc
before_trans (x ∷ xs) (y ∷ ys) [] h k = cc
before_trans (x ∷ xs) (y ∷ ys) (z ∷ zs) h k = ground (arith, before_trans xs ys zs)

before_irrefl : (a : List ℕ) → before a a ≢ true
unfolding before
before_irrefl [] h = cc
before_irrefl (x ∷ xs) h = ground (arith, before_irrefl xs)

sorted_trans :
    (a b c : List ℕ)
    → sorted_strings a b ≡ true
    → sorted_strings b c ≡ true
    → sorted_strings a c ≡ true
sorted_trans a b c h k = ground (arith, before_trans a b c)

check_trans :
    (a b c : Value)
    → ctap_check_cbor a b ≡ true
    → ctap_check_cbor b c ≡ true
    → ctap_check_cbor a c ≡ true
unfolding ctap_check_cbor check_key_type
check_trans (string a) (string b) (string c) h k = sorted_trans a b c h k
check_trans (string a) (string b) (indefinite_string c) h k = sorted_trans a b [] h k
check_trans (string a) (indefinite_string b) (string c) h k = sorted_trans a [] c h k
check_trans (string a) (indefinite_string b) (indefinite_string c) h k = sorted_trans a [] [] h k
check_trans (indefinite_string a) (string b) (string c) h k = sorted_trans [] b c h k
check_trans (indefinite_string a) (string b) (indefinite_string c) h k = sorted_trans [] b [] h k
check_trans (indefinite_string a) (indefinite_string b) (string c) h k = sorted_trans [] [] c h k
check_trans (indefinite_string a) (indefinite_string b) (indefinite_string c) h k =
    sorted_trans [] [] [] h k
check_trans a b c h k = ground arith

check_irrefl : (a : Value) → ctap_check_cbor a a ≢ true
unfolding ctap_check_cbor check_key_type
check_irrefl (string a) h = ground (arith, before_irrefl a)
check_irrefl (indefinite_string a) h = ground (arith, before_irrefl [])
check_irrefl a h = ground arith

-- A key is in order before every later one.
abbrev BeforeAll : Value → Pairs → Type 0
BeforeAll k [] = Unit
BeforeAll k (p ∷ pairs) = (ctap_check_cbor k p.0 ≡ true) × BeforeAll k pairs

-- Two keys that are not the same, and not both of indefinite length.
abbrev pub Differ : Value → Value → Type 0
Differ (indefinite_string a) (indefinite_string b) = ⊥
Differ k k' = k ≢ k'

abbrev pub NotIn : Value → Pairs → Type 0
NotIn k [] = Unit
NotIn k (p ∷ pairs) = Differ k p.0 × NotIn k pairs

abbrev pub AreDistinct : Pairs → Type 0
AreDistinct [] = Unit
AreDistinct (p ∷ pairs) = NotIn p.0 pairs × AreDistinct pairs

before_more :
    (k k' : Value) (pairs : Pairs)
    → ctap_check_cbor k k' ≡ true
    → BeforeAll k' pairs
    → BeforeAll k pairs
before_more k k' [] h b = tt
before_more k k' (p ∷ pairs) h b = (check_trans k k' p.0 h b.0, before_more k k' pairs h b.1)

check_ne : (k k' : Value) → ctap_check_cbor k k' ≡ true → k ≢ k'
check_ne k k' h e = check_irrefl k (subst (λ x. ctap_check_cbor k x ≡ true) (sym e) h)

check-Differ : (k k' : Value) → ctap_check_cbor k k' ≡ true → Differ k k'
unfolding ctap_check_cbor
check-Differ (indefinite_string a) (indefinite_string b) h = check_irrefl (indefinite_string a) h
check-Differ k k' h = check_ne k k' h

before-NotIn : (k : Value) (pairs : Pairs) → BeforeAll k pairs → NotIn k pairs
before-NotIn k [] b = tt
before-NotIn k (p ∷ pairs) b = (check-Differ k p.0 b.0, before-NotIn k pairs b.1)

-- The key before, if there is one, is before all keys of the loop.
Follows : Option Value → Pairs → Type 0
Follows none pairs = Unit
Follows (some k) pairs = BeforeAll k pairs

pub step_inv :
    {S : Type 0} (b : Bool) (o : Option S) (rest : S → Option S) (s' : S)
    → (elim b [ false ↦ none | true ↦ elim o [ none ↦ none | some x ↦ rest x ] ]) ≡ some s'
    → (b ≡ true) × ((x : S) × (o ≡ some x) × (rest x ≡ some s'))
step_inv false o rest s' h = cc
step_inv true none rest s' h = cc
step_inv true (some x) rest s' h = (refl, (x, refl, h))

map_loop-AreDistinct :
    {S : Type 0} (f : Parser S) (prev : Option Value) (pairs : Pairs) (s s' : S)
    → map_loop f prev pairs s ≡ some s'
    → Follows prev pairs × AreDistinct pairs
unfolding map_loop Follows
map_loop-AreDistinct f none [] s s' h = (tt, tt)
map_loop-AreDistinct f (some k) [] s s' h = (tt, tt)
map_loop-AreDistinct f prev ((key, v) ∷ pairs) s s' h =
    let step = step_inv (in_order prev key) (f key v s) (map_loop f (some key) pairs) s' h in
    let rest = map_loop-AreDistinct f (some key) pairs step.1.0 s' step.1.2 in
    (follows prev key v pairs step.0 rest.0, (before-NotIn key pairs rest.0, rest.1))
  where
    follows :
        (prev : Option Value) (key v : Value) (pairs : Pairs)
        → in_order prev key ≡ true
        → BeforeAll key pairs
        → Follows prev ((key, v) ∷ pairs)
    follows none key v pairs o b = tt
    follows (some k) key v pairs o b = (o, before_more k key pairs o b)

-- Whatever the parser does, a map that `cbor_map_iter` accepts has no item twice as a key, and one
-- text of indefinite length at most as a key. A text may stand there once in each of its two forms.
pub map_iter-AreDistinct :
    {S : Type 0} (f : Parser S) (pairs : Pairs) (s s' : S)
    → cbor_map_iter f pairs s ≡ some s'
    → AreDistinct pairs
unfolding cbor_map_iter
map_iter-AreDistinct f pairs s s' h = (map_loop-AreDistinct f none pairs s s' h).1

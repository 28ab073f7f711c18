-- ===== src/Cbor/Invariant.antt =====
-- src/cbor.c: what every step of a parser keeps holds of what a reply is parsed to.
use fido2_manage.Prelude.{
  ◌≡◌, List, [], ◌∷◌, ℕ, Option, none, some, ◌==◌, Bool-cases, inl, inr, subst, some_equal, ℤ,
}
use fido2_manage.Try.{val, err}
use fido2_manage.Cbor.{
  Value, Pairs, Item, definite_map, definite_array, other_item, Libcbor, Parser, in_order, map_loop,
  cbor_map_iter, parse_pairs, parse_item, cbor_parse_reply,
}
use fido2_manage.Cbor.Decode.{by_number, number_step, key_number}
use fido2_manage.Cbor.Distinct.{step_inv}

err-ne-val : {S : Type 0} {code : ℤ} {s : S} → err code ≡ val s → ⊥
err-ne-val h = cc

module _ {S : Type 0} (P : S → Type 0) (f : Parser S)
    (keep : (key v : Value) (s s' : S) → P s → f key v s ≡ some s' → P s') where
  map_loop_inv :
      (prev : Option Value) (pairs : Pairs) (s s' : S)
      → P s
      → map_loop f prev pairs s ≡ some s'
      → P s'
  unfolding map_loop
  map_loop_inv prev [] s s' p h = subst P (some_equal h) p
  map_loop_inv prev ((key, v) ∷ pairs) s s' p h =
      let step = step_inv (in_order prev key) (f key v s) (map_loop f (some key) pairs) s' h in
      map_loop_inv (some key) pairs step.1.0 s' (keep key v s step.1.0 p step.1.1) step.1.2

  parse_pairs_inv :
      (o : Option S) (s' : S) → ((x : S) → o ≡ some x → P x) → parse_pairs o ≡ val s' → P s'
  parse_pairs_inv none s' k h = cc
  parse_pairs_inv (some x) s' k h = k s' (cc)

  parse_item_inv : (s s' : S) (o : Option Item) → P s → parse_item f s o ≡ val s' → P s'
  unfolding cbor_map_iter
  parse_item_inv s s' none p h = cc
  parse_item_inv s s' (some other_item) p h = cc
  parse_item_inv s s' (some (definite_array items)) p h = cc
  parse_item_inv s s' (some (definite_map pairs)) p h =
      parse_pairs_inv (cbor_map_iter f pairs s) s' (λ x e. map_loop_inv none pairs s x p e) h

  pub parse_reply_inv :
      (l : Libcbor) (msg : List ℕ) (s s' : S) → P s → cbor_parse_reply l msg f s ≡ val s' → P s'
  unfolding cbor_parse_reply
  parse_reply_inv l [] s s' p h = cc
  parse_reply_inv l (status ∷ rest) s s' p h = elim (Bool-cases (status == 0)) [
    | inl fine ↦ parse_item_inv s s' (l.load rest) p (rw fine at h)
    | inr bad ↦ absurd (err-ne-val (rw bad at h))
  ]

module _ {S : Type 0} (P : S → Type 0) (f : ℕ → Value → S → Option S)
    (keep : (n : ℕ) (v : Value) (s s' : S) → P s → f n v s ≡ some s' → P s') where
  at_number : (o : Option ℕ) (v : Value) (s s' : S) → P s → number_step f o v s ≡ some s' → P s'
  at_number none v s s' p h = subst P (some_equal h) p
  at_number (some n) v s s' p h = keep n v s s' p h

  pub by_number_inv : (key v : Value) (s s' : S) → P s → by_number f key v s ≡ some s' → P s'
  by_number_inv key v s s' p h = at_number (key_number key) v s s' p h

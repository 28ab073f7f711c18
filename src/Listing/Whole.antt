-- ===== src/Listing/Whole.antt =====
-- src/credman.c and src/assert.c: a list that was fetched is whole, and each entry is what a message of the device says.
use fido2_manage.Prelude.{
  ℕ, zero, suc, ◌+◌, ◌<◌, ◌≡◌, refl, ap, sym, subst, false, List, [], ◌∷◌, ◌++◌, length, replicate,
  ltb, leb, ◌==◌, arith, Bool-cases, ==_iff, inl, inr, ◌⊎◌, append-nil, ◌∙◌,
}
use fido2_manage.Platform.{World, ok}
use fido2_manage.Try.{Ret, val, err, OnRet, then-Ends, give-Ends}
use fido2_manage.Ends.{Ends, weaken-Ends}
use fido2_manage.Device.{Dev}
use fido2_manage.Cbor.{cbor_parse_reply}
use fido2_manage.Ctap.{Calls, receive}
use fido2_manage.Ctap.Total.{IsPlain, AnyCode, AnyRet, receive-Ends, outcome-Ends, parsed_here-Ends}
use fido2_manage.Listing.{
  Listing, Kind, parse_entry, first_parsed, first_entry, rx_first, rx_next, one_more, rx_rest,
  rx_all,
}
use fido2_manage.Listing.Partial.{EachParsed, IsPartial, IsFresh, Filled, entry-Ends}
use fido2_manage.Listing.Meaning.{Counted, Fetched, first, more, IsListed, nothing, whole}

-- Asking for the next entry ends, and the list is blank once its length is known.
pub record IsKind {A : Type 0} (c : Calls) (d : Dev) (k : Kind A) : Type 0 where
  pub ask : (v : World) → Ends AnyRet (k.ask c d v)
  pub fresh :
      (msg : List ℕ) (l : Listing A)
      → cbor_parse_reply c.cbor msg k.count k.start ≡ val l
      → IsFresh k l

module _ {A : Type 0} (c : Calls) (d : Dev) (plain : IsPlain c d) (k : Kind A) (kind : IsKind c d k)
    (w : World) where
  -- What was fetched so far.
  abbrev Fetching : ℕ → Listing A → World → Type 0
  Fetching n l v = (msgs : List (List ℕ)) × Fetched c d k w n msgs v × IsPartial c k n msgs l

  tx-Ends :
      (v : World) → Ends (OnRet AnyCode (λ u v1. k.ask c d v ≡ (ok (val u), v1))) (k.ask c d v)
  tx-Ends v = outcome-Ends (k.ask c d v) (kind.ask v)

  got-Ends :
      (v : World)
      → Ends (OnRet AnyCode (λ msg v1. receive c d v ≡ (ok (val msg), v1))) (receive c d v)
  got-Ends v = outcome-Ends (receive c d v) (receive-Ends c d plain v)

  next-Ends :
      (n : ℕ) (l : Listing A) (msgs : List (List ℕ)) (v : World)
      → IsPartial c k n msgs l
      → l.n_rx < l.n_alloc
      → Ends
          (OnRet AnyCode (λ l' v1.
            (msg : List ℕ) × (receive c d v ≡ (ok (val msg), v1)) × Filled c k n msgs msg l l'))
          (rx_next k c d l v)
  unfolding rx_next
  next-Ends n l msgs v part less =
      let room : leb l.n_alloc l.n_rx ≡ false = ground (arith, less) in
      then-Ends AnyCode _ _ (got-Ends v) λ msg v1 got. rw room (
        weaken-Ends (parse_entry k c msg l l.n_rx v1) (entry-Ends c k n msgs msg l v1 part less)
          (answered msg v1 got))
    where
      answered :
          (msg : List ℕ) (v1 : World)
          → receive c d v ≡ (ok (val msg), v1)
          → (r : Ret (Listing A)) (v2 : World)
          → OnRet AnyCode (λ l' v2. Filled c k n msgs msg l l' × (v2 ≡ v1)) r v2
          → OnRet AnyCode
              (λ l' v2.
                (msg : List ℕ) × (receive c d v ≡ (ok (val msg), v2)) × Filled c k n msgs msg l l')
              r
              v2
      answered msg v1 got (val l') v2 h =
          (msg, subst (λ x. receive c d v ≡ (ok (val msg), x)) (sym h.1) got, h.0)
      answered msg v1 got (err code) v2 h = tt

  one_more-Ends :
      (n : ℕ) (l : Listing A) (v : World)
      → Fetching n l v
      → l.n_rx < l.n_alloc
      → Ends
          (OnRet AnyCode (λ l' v2. Fetching n l' v2 × (l'.n_rx ≡ l.n_rx + 1)))
          (one_more k c d l v)
  one_more-Ends n l v so_far less = then-Ends AnyCode _ _ (tx-Ends v) λ u v1 asked.
      then-Ends AnyCode _ _ (next-Ends n l so_far.0 v1 so_far.2 less) λ l' v2 p.
        give-Ends AnyCode (record l' { n_rx = l'.n_rx + 1 }) v2
          (
            (
              so_far.0 ++ (p.0 ∷ []),
              more so_far.0 p.0 v v1 v2 so_far.1 asked p.1,
              subst (λ i. IsPartial c k n (so_far.0 ++ (p.0 ∷ [])) (record l' { n_rx = i + 1 }))
                  (sym p.2.1) p.2.0,
            ),
            ap (λ i. i + 1) p.2.1,
          )

  rest-Ends :
      (fuel n : ℕ) (l : Listing A) (v : World)
      → Fetching n l v
      → l.n_alloc < l.n_rx + fuel
      → Ends
          (OnRet AnyCode (λ l' v1. Fetching n l' v1 × (l'.n_rx ≡ l'.n_alloc)))
          (rx_rest k fuel c d l v)
  unfolding rx_rest
  rest-Ends zero n l v f enough = absurd (omega (arith, f.2.n_rx, f.2.n_alloc))
  rest-Ends (suc fuel) n l v f enough = elim (Bool-cases (ltb l.n_rx l.n_alloc)) [
    | inl left ↦
        rw (left, rx_rest)
          (then-Ends AnyCode _ _ (one_more-Ends n l v f (ground (arith, left))) λ l' v1 p.
            rest-Ends fuel n l' v1 p.0 (omega (arith, p.1, p.0.2.announced, f.2.announced, enough)))
    | inr all ↦
        rw (all, rx_rest) (give-Ends AnyCode l v (f, ground (arith, all, f.2.n_rx, f.2.n_alloc)))
  ]

  whole-IsListed :
      (n : ℕ) (l : Listing A) (v : World)
      → Fetching n l v
      → l.n_rx ≡ l.n_alloc
      → IsListed c d k w l v
  whole-IsListed n l v f all = go f.2.room f.2.ptr f.2.n_alloc
    where
      go :
          (room : ℕ)
          → l.ptr ≡ f.2.done ++ replicate room k.blank
          → l.n_alloc ≡ length f.2.done + room
          → IsListed c d k w l v
      go (suc room) ptr alloc = absurd (omega (arith, f.2.n_rx))
      go zero ptr alloc =
          let same : l.ptr ≡ f.2.done = ptr ∙ append-nil f.2.done in
          whole n f.0 f.1 (subst (EachParsed c k f.0) (sym same) f.2.parsed) f.2.announced
            (all ∙ f.2.announced) (rw same (omega (arith, alloc, f.2.announced)))

  -- The list after the first message.
  abbrev pub Begun : Listing A → World → Type 0
  Begun l v = (Fetching l.n_alloc l v) ⊎ (((l.n_alloc ≡ 0) × (l.n_rx ≡ 0)) × IsListed c d k w l v)

  less : (l : Listing A) → IsFresh k l → (l.n_alloc == 0) ≡ false → l.n_rx < l.n_alloc
  less l fresh h = ground (arith, fresh.n_rx, h)

  pub first_parsed-Ends :
      (l : Listing A) (msg : List ℕ) (v : World)
      → receive c d w ≡ (ok (val msg), v)
      → Counted c k msg l.n_alloc
      → IsFresh k l
      → (l.n_alloc == 0) ≡ false
      → Ends (OnRet AnyCode (λ l' v1. Begun l' v1)) (first_parsed k c msg l v)
  first_parsed-Ends l msg v got count fresh some_there =
      then-Ends AnyCode _ _
        (subst
          (λ i.
            Ends (OnRet AnyCode (λ l' v1. Filled c k l.n_alloc [] msg l l' × (v1 ≡ v)))
              (parse_entry k c msg l i v))
          fresh.n_rx (entry-Ends c k l.n_alloc [] msg l v blank_part (less l fresh some_there)))
        λ l' v1 p. give-Ends AnyCode (record l' { n_rx = 1 }) v1 (inl (begun l' v1 p))
    where
      blank_part : IsPartial c k l.n_alloc [] l
      blank_part = record {
        done = [];
        room = l.n_alloc;
        ptr = fresh.ptr;
        n_rx = fresh.n_rx;
        n_alloc = omega arith;
        parsed = tt;
        announced = refl;
      }

      begun :
          (l' : Listing A) (v1 : World)
          → Filled c k l.n_alloc [] msg l l' × (v1 ≡ v)
          → Fetching l'.n_alloc (record l' { n_rx = 1 }) v1
      begun l' v1 p = (
        msg ∷ [],
        first msg v1 (subst (λ x. receive c d w ≡ (ok (val msg), x)) (sym p.1) got)
            (subst (Counted c k msg) (sym p.0.0.announced) count),
        subst (λ n. IsPartial c k n (msg ∷ []) (record l' { n_rx = 1 })) (sym p.0.0.announced)
            (subst (λ i. IsPartial c k l.n_alloc (msg ∷ []) (record l' { n_rx = i + 1 })) fresh.n_rx
              p.0.0),
      )

  first_entry-Ends :
      (l : Listing A) (msg : List ℕ) (v : World)
      → receive c d w ≡ (ok (val msg), v)
      → Counted c k msg l.n_alloc
      → IsFresh k l
      → Ends (OnRet AnyCode (λ l' v1. Begun l' v1)) (first_entry k c msg l v)
  first_entry-Ends l msg v got count fresh = elim (Bool-cases (l.n_alloc == 0)) [
    | inl zeros ↦
        let none_there : l.n_alloc ≡ 0 = (==_iff l.n_alloc 0).0 zeros in
        rw zeros (
          give-Ends AnyCode l v (
            inr (
              (none_there, fresh.n_rx),
              nothing msg got (subst (Counted c k msg) none_there count) none_there fresh.n_rx,
            )))
    | inr some_there ↦ rw some_there (first_parsed-Ends l msg v got count fresh some_there)
  ]

  -- All further entries, and then the list is whole.
  pub finished-Ends :
      (l : Listing A) (v : World)
      → Begun l v
      → Ends (OnRet AnyCode (λ l' v1. IsListed c d k w l' v1)) (rx_rest k (suc l.n_alloc) c d l v)
  unfolding rx_rest
  finished-Ends l v (inl f) =
      weaken-Ends (rx_rest k (suc l.n_alloc) c d l v)
        (rest-Ends (suc l.n_alloc) l.n_alloc l v f (omega arith)) each
    where
      each :
          (r : Ret (Listing A)) (v1 : World)
          → OnRet AnyCode (λ l' v1. Fetching l.n_alloc l' v1 × (l'.n_rx ≡ l'.n_alloc)) r v1
          → OnRet AnyCode (λ l' v1. IsListed c d k w l' v1) r v1
      each (val l') v1 h = whole-IsListed l.n_alloc l' v1 h.0 h.1
      each (err code) v1 h = tt
  finished-Ends l v (inr (zeros, listed)) =
      let none_left : ltb l.n_rx l.n_alloc ≡ false = ground (arith, zeros.0, zeros.1) in
      rw (none_left, rx_rest) (give-Ends AnyCode l v listed)

  first-Ends : Ends (OnRet AnyCode (λ l v. Begun l v)) (rx_first k c d w)
  unfolding rx_first
  first-Ends = then-Ends AnyCode _ _ (got-Ends w) λ msg w1 got.
      then-Ends AnyCode _ _ (parsed_here-Ends (cbor_parse_reply c.cbor msg k.count k.start) w1)
        λ l w2 counted.
          first_entry-Ends l msg w2
            (subst (λ x. receive c d w ≡ (ok (val msg), x)) (sym counted.1) got)
            (record { list = l; counted = counted.0; n_alloc = refl }) (kind.fresh msg l counted.0)

  pub rx_all-IsListed : Ends (OnRet AnyCode (λ l v. IsListed c d k w l v)) (rx_all k c d w)
  unfolding rx_all
  rx_all-IsListed = then-Ends AnyCode _ _ first-Ends finished-Ends

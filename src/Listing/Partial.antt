-- ===== src/Listing/Partial.antt =====
-- src/credman.c and src/assert.c: a list while it is fetched.
use fido2_manage.Prelude.{
  ℕ, zero, suc, ◌+◌, ◌-◌, ◌<◌, ◌≡◌, refl, ap, sym, subst, List, [], ◌∷◌, ◌++◌, Option, none, some,
  length, replicate, length-append, get_or, set, ltb, ◌==◌, arith, Bool-cases, inl, inr, some_equal,
}
use fido2_manage.Platform.{World}
use fido2_manage.Try.{val, OnRet, then-Ends, give-Ends}
use fido2_manage.Ends.{Ends}
use fido2_manage.Cbor.{Value, cbor_parse_reply}
use fido2_manage.Cbor.Decode.{cbor_decode_uint64}
use fido2_manage.Cbor.Invariant.{parse_reply_inv, by_number_inv}
use fido2_manage.Ctap.{Calls}
use fido2_manage.Ctap.Total.{AnyCode, parsed_here-Ends}
use fido2_manage.Listing.{
  Listing, empty_list, Kind, credman_grow_array, grow?, count_step, parse_count, parse_entry,
}

module _ {A : Type 0} where
  get_or-middle : (done rest : List A) (e b : A) → get_or (done ++ (e ∷ rest)) (length done) b ≡ e
  get_or-middle [] rest e b = refl
  get_or-middle (x ∷ done) rest e b = get_or-middle done rest e b

  set-middle :
      (done rest : List A) (e e' : A)
      → set (done ++ (e ∷ rest)) (length done) e' ≡ (done ++ (e' ∷ [])) ++ rest
  set-middle [] rest e e' = refl
  set-middle (x ∷ done) rest e e' = ap (λ l. x ∷ l) (set-middle done rest e e')

-- Each entry is what a message was parsed to, from a zeroed entry, in the order of the messages.
abbrev pub EachParsed : {A : Type 0} → Calls → Kind A → List (List ℕ) → List A → Type 0
EachParsed c k [] [] = Unit
EachParsed c k [] (e ∷ es) = ⊥
EachParsed c k (msg ∷ msgs) [] = ⊥
EachParsed c k (msg ∷ msgs) (e ∷ es) =
    (cbor_parse_reply c.cbor msg k.parse k.blank ≡ val e) × EachParsed c k msgs es

EachParsed-append :
    {A : Type 0} (c : Calls) (k : Kind A) (msgs : List (List ℕ)) (es : List A) (msg : List ℕ)
    (e : A)
    → EachParsed c k msgs es
    → cbor_parse_reply c.cbor msg k.parse k.blank ≡ val e
    → EachParsed c k (msgs ++ (msg ∷ [])) (es ++ (e ∷ []))
EachParsed-append c k [] [] msg e h p = (p, tt)
EachParsed-append c k [] (x ∷ es) msg e h p = absurd h
EachParsed-append c k (m ∷ msgs) [] msg e h p = absurd h
EachParsed-append c k (m ∷ msgs) (x ∷ es) msg e h p =
    (h.0, EachParsed-append c k msgs es msg e h.1 p)

-- A list of which some entries are there and the rest is blank.
pub record IsPartial {A : Type 0} (c : Calls) (k : Kind A) (n : ℕ) (msgs : List (List ℕ))
    (l : Listing A) : Type 0 where
  pub done : List A
  pub room : ℕ
  pub ptr : l.ptr ≡ done ++ replicate room k.blank
  pub n_rx : l.n_rx ≡ length done
  pub n_alloc : l.n_alloc ≡ length done + room
  pub parsed : EachParsed c k msgs done
  pub announced : l.n_alloc ≡ n

-- Blank entries only, and none received.
pub record IsFresh {A : Type 0} (k : Kind A) (l : Listing A) : Type 0 where
  pub ptr : l.ptr ≡ replicate l.n_alloc k.blank
  pub n_rx : l.n_rx ≡ 0

replicate-append :
    {A : Type 0} (n m : ℕ) (a : A) → replicate n a ++ replicate m a ≡ replicate (n + m) a
replicate-append zero m a = let e : 0 + m ≡ m = omega arith in rw e refl
replicate-append (suc n) m a =
    let e : suc n + m ≡ suc (n + m) = omega arith in rw e (ap (λ l. a ∷ l) (replicate-append n m a))

grow-IsFresh :
    {A : Type 0} (k : Kind A) (n : ℕ) (l l' : Listing A)
    → IsFresh k l
    → credman_grow_array k.blank l n ≡ some l'
    → IsFresh k l'
unfolding credman_grow_array
grow-IsFresh k n l l' fresh h = elim (Bool-cases (ltb n l.n_alloc)) [
  | inl less ↦ subst (IsFresh k) (some_equal (rw less at h)) fresh
  | inr more ↦
      let sum : l.n_alloc + (n - l.n_alloc) ≡ n = ground (arith, more) in
      let all = replicate-append l.n_alloc (n - l.n_alloc) k.blank in
      let grown : l' ≡ record l { ptr = l.ptr ++ replicate (n - l.n_alloc) k.blank; n_alloc = n } =
        ground (arith, more, h) in
      rw grown (record {
        ptr = rw fresh.ptr (rw all (ap (λ m. replicate m k.blank) sum));
        n_rx = fresh.n_rx;
      })
]

grow?-IsFresh :
    {A : Type 0} (k : Kind A) (o : Option ℕ) (l l' : Listing A)
    → IsFresh k l
    → grow? k.blank l o ≡ some l'
    → IsFresh k l'
grow?-IsFresh k none l l' fresh h = cc
grow?-IsFresh k (some n) l l' fresh h = grow-IsFresh k n l l' fresh h

count-IsFresh :
    {A : Type 0} (k : Kind A) (key n : ℕ) (v : Value) (l l' : Listing A)
    → IsFresh k l
    → count_step key k.blank n v l ≡ some l'
    → IsFresh k l'
count-IsFresh k key n v l l' fresh h = elim (Bool-cases (n == key)) [
  | inl counted ↦ grow?-IsFresh k (cbor_decode_uint64 v) l l' fresh (ground (arith, counted, h))
  | inr not_counted ↦ subst (IsFresh k) (some_equal (ground (arith, not_counted, h))) fresh
]

pub first-IsFresh :
    {A : Type 0} (c : Calls) (k : Kind A) (key : ℕ) (msg : List ℕ) (l : Listing A)
    → cbor_parse_reply c.cbor msg (parse_count key k.blank) empty_list ≡ val l
    → IsFresh k l
unfolding parse_count
first-IsFresh c k key msg l h =
    parse_reply_inv (IsFresh k) (parse_count key k.blank)
      (by_number_inv (IsFresh k) (count_step key k.blank) (count-IsFresh k key)) c.cbor msg
      empty_list l (record { ptr = refl; n_rx = refl }) h

module _ {A : Type 0} (c : Calls) (k : Kind A) (n : ℕ) (msgs : List (List ℕ)) (msg : List ℕ) where
  -- One entry more.
  placed :
      (l : Listing A) (done : List A) (room : ℕ) (e : A)
      → l.ptr ≡ done ++ (k.blank ∷ replicate room k.blank)
      → l.n_alloc ≡ length done + suc room
      → EachParsed c k msgs done
      → l.n_alloc ≡ n
      → cbor_parse_reply c.cbor msg k.parse k.blank ≡ val e
      → IsPartial c k n
          (msgs ++ (msg ∷ []))
          (record l { ptr = set l.ptr (length done) e; n_rx = length done + 1 })
  placed l done room e ptr alloc parsed announced p =
      let len : length (done ++ (e ∷ [])) ≡ length done + 1 =
        omega (arith, length-append {0} done (e ∷ [])) in
      record {
        done = done ++ (e ∷ []);
        room = room;
        ptr = rw ptr (set-middle done (replicate room k.blank) k.blank e);
        n_rx = sym len;
        n_alloc = omega (arith, len, alloc);
        parsed = EachParsed-append c k msgs done msg e parsed p;
        announced = announced;
      }

  -- The message goes into the first blank entry, and the counter is left to the caller.
  abbrev pub Filled : Listing A → Listing A → Type 0
  Filled l l' =
      IsPartial c k n (msgs ++ (msg ∷ [])) (record l' { n_rx = l.n_rx + 1 }) × (l'.n_rx ≡ l.n_rx)

  entry_at :
      (l : Listing A) (done : List A) (room : ℕ) (w : World)
      → l.n_rx ≡ length done
      → l.ptr ≡ done ++ replicate room k.blank
      → l.n_alloc ≡ length done + room
      → l.n_rx < l.n_alloc
      → EachParsed c k msgs done
      → l.n_alloc ≡ n
      → Ends (OnRet AnyCode (λ l' v. Filled l l' × (v ≡ w))) (parse_entry k c msg l l.n_rx w)
  unfolding parse_entry
  entry_at l done zero w at ptr alloc less parsed announced = absurd (omega arith)
  entry_at l done (suc room) w at ptr alloc less parsed announced =
      let old : get_or l.ptr l.n_rx k.blank ≡ k.blank =
        rw (at, ptr) (get_or-middle done (replicate room k.blank) k.blank k.blank) in
      then-Ends AnyCode _ _
        (parsed_here-Ends (cbor_parse_reply c.cbor msg k.parse (get_or l.ptr l.n_rx k.blank)) w)
        λ e w1 made.
          give-Ends AnyCode (record l { ptr = set l.ptr l.n_rx e }) w1
            (
              (
                subst
                    (λ i.
                      IsPartial c k n (msgs ++ (msg ∷ []))
                        (record l { ptr = set l.ptr i e; n_rx = i + 1 }))
                    (sym at) (placed l done room e ptr alloc parsed announced (rw old at (made.0))),
                refl,
              ),
              made.1,
            )

  pub entry-Ends :
      (l : Listing A) (w : World)
      → IsPartial c k n msgs l
      → l.n_rx < l.n_alloc
      → Ends (OnRet AnyCode (λ l' v. Filled l l' × (v ≡ w))) (parse_entry k c msg l l.n_rx w)
  entry-Ends l w part less =
      entry_at l part.done part.room w part.n_rx part.ptr part.n_alloc less part.parsed
        part.announced

-- ===== src/Largeblob/Placed.antt =====
-- src/largeblob.c: where a blob is put in the array, and what is found there afterwards.
use fido2_manage.Prelude.{
  ℕ, zero, suc, ◌+◌, ◌≤◌, ◌≡◌, ap, refl, sym, ◌∙◌, List, [], ◌∷◌, ◌++◌, Option, none, some, length,
  set, arith, length-set, length-append,
}
use fido2_manage.Err.{err_notfound}
use fido2_manage.Try.{Ret, val, err}
use fido2_manage.Cbor.{Entry, cbor_array_append}
use fido2_manage.Largeblob.{Calls}
use fido2_manage.Largeblob.Blobs.{try_entry, lookup_from, largeblob_array_lookup, placed}

-- The array after a blob was put in it, and the place where it stands.
pub record Findable (c : Calls) (key : List ℕ) (array : List Entry) (item : Entry)
    (found : List ℕ × ℕ) : Type 0 where
  pub after : List Entry
  pub place : ℕ
  pub put : placed array item (largeblob_array_lookup c key array) ≡ val after
  pub finds : largeblob_array_lookup c key after ≡ val (place, found)
  pub grows : length array ≤ length after
  pub by_one : length after ≤ suc (length array)

none-some : (x : ℕ × (List ℕ × ℕ)) → none ≡ some x → ⊥
none-some x e = cc

place-injective :
    (i j : ℕ) (f g : List ℕ × ℕ)
    → Path (Option (ℕ × (List ℕ × ℕ))) (some (i, f)) (some (j, g))
    → i ≡ j
place-injective i j f g e = ap (λ o. elim o [ none ↦ i | some x ↦ x.0 ]) e

abbrev looked : Option (ℕ × (List ℕ × ℕ)) → Ret (ℕ × (List ℕ × ℕ))
looked none = err err_notfound
looked (some found) = val found

lookup_is :
    (c : Calls) (key : List ℕ) (array : List Entry) (o : Option (ℕ × (List ℕ × ℕ)))
    → lookup_from c key 0 array ≡ o
    → largeblob_array_lookup c key array ≡ looked o
unfolding largeblob_array_lookup
lookup_is c key array none h = rw (h, largeblob_array_lookup) refl
lookup_is c key array (some found) h = rw (h, largeblob_array_lookup) refl

module _ (c : Calls) (key : List ℕ) (item : Entry) (found : List ℕ × ℕ)
    (opens : try_entry c key item ≡ some found) where
  lookup-here :
      (i : ℕ) (entry : Entry) (entries : List Entry) (f : List ℕ × ℕ)
      → try_entry c key entry ≡ some f
      → lookup_from c key i (entry ∷ entries) ≡ some (i, f)
  unfolding lookup_from
  lookup-here i entry entries f e = rw (e, lookup_from) refl

  lookup-later :
      (i : ℕ) (entry : Entry) (entries : List Entry)
      → try_entry c key entry ≡ none
      → lookup_from c key i (entry ∷ entries) ≡ lookup_from c key (suc i) entries
  unfolding lookup_from
  lookup-later i entry entries e = rw (e, lookup_from) refl

  AppendFinds : List Entry → Type 0
  AppendFinds array =
      (i : ℕ)
      → lookup_from c key i array ≡ none
      → lookup_from c key i (array ++ (item ∷ [])) ≡ some (i + length array, found)

  append-finds : (array : List Entry) → AppendFinds array
  unfolding AppendFinds
  append-finds [] i h =
      let e : i + 0 ≡ i = omega arith in lookup-here i item [] found opens ∙ rw e refl
  append-finds (entry ∷ array) i h = go (append-finds array) (try_entry c key entry) refl
    where
      go :
          AppendFinds array
          → (o : Option (List ℕ × ℕ)) → try_entry c key entry ≡ o
          → lookup_from c key i (entry ∷ (array ++ (item ∷ [])))
            ≡ some (i + suc (length array), found)
      go rest (some f) e = absurd (none-some _ (sym h ∙ lookup-here i entry array f e))
      go rest none e =
          let n : suc i + length array ≡ i + suc (length array) = omega arith in
          lookup-later i entry (array ++ (item ∷ [])) e
          ∙ rest (suc i) (sym (lookup-later i entry array e) ∙ h)
          ∙ rw n refl

  IsLater : List Entry → Type 0
  IsLater array = (i j : ℕ) (f : List ℕ × ℕ) → lookup_from c key i array ≡ some (j, f) → i ≤ j

  lookup-ge : (array : List Entry) → IsLater array
  unfolding IsLater lookup_from
  lookup-ge [] i j f h = cc
  lookup-ge (entry ∷ array) i j f h = go (lookup-ge array) (try_entry c key entry) refl
    where
      go : IsLater array → (o : Option (List ℕ × ℕ)) → try_entry c key entry ≡ o → i ≤ j
      go rest (some g) e =
          omega (arith, place-injective i j g f (sym (lookup-here i entry array g e) ∙ h))
      go rest none e = omega (arith, rest (suc i) j f (sym (lookup-later i entry array e) ∙ h))

  SetFinds : List Entry → Type 0
  SetFinds array =
      (i j k : ℕ) (f : List ℕ × ℕ)
      → lookup_from c key i array ≡ some (j, f)
      → j ≡ i + k
      → lookup_from c key i (set array k item) ≡ some (j, found)

  set-finds : (array : List Entry) → SetFinds array
  unfolding SetFinds lookup_from
  set-finds [] i j k f h at = cc
  set-finds (entry ∷ array) i j zero f h at =
      let e : i ≡ j = omega (arith, at) in rw (sym e) (lookup-here i item array found opens)
  set-finds (entry ∷ array) i j (suc k) f h at = go (set-finds array) (try_entry c key entry) refl
    where
      go :
          SetFinds array
          → (o : Option (List ℕ × ℕ)) → try_entry c key entry ≡ o
          → lookup_from c key i (entry ∷ set array k item) ≡ some (j, found)
      go rest (some g) e =
          absurd
            (omega (arith, at, place-injective i j g f (sym (lookup-here i entry array g e) ∙ h)))
      go rest none e =
          lookup-later i entry (set array k item) e
          ∙ rest (suc i) j k f (sym (lookup-later i entry array e) ∙ h) (omega (arith, at))

  -- If an entry opens under a key, then after it is put in an array, over the first blob under
  -- that key or else at the end, the lookup finds it there.
  pub placed-Findable : (array : List Entry) → Findable c key array item found
  unfolding cbor_array_append AppendFinds SetFinds
  placed-Findable array = go (lookup_from c key 0 array) refl
    where
      go :
          (o : Option (ℕ × (List ℕ × ℕ)))
          → lookup_from c key 0 array ≡ o
          → Findable c key array item found
      go none h = record {
        after = array ++ (item ∷ []);
        place = 0 + length array;
        put = ap (placed array item) (lookup_is c key array none h);
        finds = lookup_is c key (array ++ (item ∷ [])) _ (append-finds array 0 h);
        grows = omega (arith, length-append array (item ∷ []));
        by_one = omega (arith, length-append array (item ∷ []));
      }
      go (some (j, f)) h = record {
        after = set array j item;
        place = j;
        put = ap (placed array item) (lookup_is c key array (some (j, f)) h);
        finds =
            lookup_is c key (set array j item) (some (j, found))
              (set-finds array 0 j j f h (omega arith));
        grows = omega (arith, length-set array j item);
        by_one = omega (arith, length-set array j item);
      }

-- ===== src/Prelude/Sub.antt =====
-- Lists that keep the order of another, and writes seen through a map.
use Prim.Native.Nat.{◌+◌, ℕ, zero, suc, ◌≤◌, ◌<◌}
use mathlib.Core.Path.{◌≡◌, refl, ap}
use mathlib.Core.Logic.{◌≢◌}
use mathlib.Core.List.{List, [], ◌∷◌, ◌++◌, map}
use mathlib.Core.Option.{none, some}
use native.Mathlib.Omega.{arith}
use fido2_manage.Prelude.Lists.{length, get_elem?, set, take, drop}

-- The first list is the second with elements left out.
pub data SubList {ℓ} {A : Type ℓ} : List A → List A → Type ℓ where
  done : SubList [] []
  skip : (y : A) (xs ys : List A) → SubList xs ys → SubList xs (y ∷ ys)
  keep : (x : A) (xs ys : List A) → SubList xs ys → SubList (x ∷ xs) (x ∷ ys)

module _ {ℓ} {A : Type ℓ} where
  pub SubList-length : (xs ys : List A) → SubList xs ys → length xs ≤ length ys
  SubList-length xs ys done = omega arith
  SubList-length xs ys (skip y xs' ys' s) = omega (arith, SubList-length xs' ys' s)
  SubList-length xs ys (keep x xs' ys' s) = omega (arith, SubList-length xs' ys' s)

  take_nil : (n : ℕ) → take n (let e : List A = [] in e) ≡ []
  take_nil zero = refl
  take_nil (suc n) = refl

  pub get_elem?-none : (xs : List A) (i : ℕ) → i < length xs → get_elem? xs i ≢ none
  get_elem?-none [] i h e = absurd (omega arith)
  get_elem?-none (x ∷ xs) zero h e = cc
  get_elem?-none (x ∷ xs) (suc i) h e = get_elem?-none xs i (omega arith) e

  pub get_elem?-set :
      (xs : List A) (i : ℕ) (x v : A) → get_elem? xs i ≡ some x → get_elem? (set xs i v) i ≡ some v
  get_elem?-set [] i x v h = cc
  get_elem?-set (y ∷ xs) zero x v h = refl
  get_elem?-set (y ∷ xs) (suc i) x v h = get_elem?-set xs i x v h

  pub set-set : (xs : List A) (i : ℕ) (v u : A) → set (set xs i v) i u ≡ set xs i u
  set-set [] i v u = refl
  set-set (x ∷ xs) zero v u = refl
  set-set (x ∷ xs) (suc i) v u = ap (λ t. x ∷ t) (set-set xs i v u)

  pub append-take : (k n : ℕ) (xs : List A) → take k xs ++ take n (drop k xs) ≡ take (k + n) xs
  append-take zero n xs = ap (λ m. take m xs) (omega arith)
  append-take (suc k) n [] = let e : suc k + n ≡ suc (k + n) = omega arith in rw e (take_nil n)
  append-take (suc k) n (x ∷ xs) =
      let e : suc k + n ≡ suc (k + n) = omega arith in rw e (ap (λ t. x ∷ t) (append-take k n xs))

  pub take-set :
      (xs : List A) (i : ℕ) (v : A)
      → i < length xs
      → take (suc i) (set xs i v) ≡ take i xs ++ (v ∷ [])
  take-set [] i v h = absurd (omega arith)
  take-set (x ∷ xs) zero v h = refl
  take-set (x ∷ xs) (suc i) v h = ap (λ t. x ∷ t) (take-set xs i v (omega arith))

module _ {ℓ κ} {A : Type ℓ} {B : Type κ} (f : A → B) where
  pub map-set : (xs : List A) (i : ℕ) (v : A) → map f (set xs i v) ≡ set (map f xs) i (f v)
  map-set [] i v = refl
  map-set (x ∷ xs) zero v = refl
  map-set (x ∷ xs) (suc i) v = ap (λ t. f x ∷ t) (map-set xs i v)

  pub map-set_same :
      (xs : List A) (i : ℕ) (v x : A)
      → get_elem? xs i ≡ some x
      → f v ≡ f x
      → map f (set xs i v) ≡ map f xs
  map-set_same [] i v x h e = refl
  map-set_same (y ∷ xs) zero v x h e = rw e (cc)
  map-set_same (y ∷ xs) (suc i) v x h e = ap (λ t. f y ∷ t) (map-set_same xs i v x h e)

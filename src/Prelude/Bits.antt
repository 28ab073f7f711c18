-- ===== src/Prelude/Bits.antt =====
-- The bits of `|` and `&`: a test against a mask reads both operands of `|`.
use Prim.Native.Nat.{
  ℕ, zero, suc, ◌+◌, ◌-◌, ◌*◌, ◌/◌, ◌%◌, ◌≤◌, min, max, digits, bit_and, bit_or, bit_and-bitwise,
  bit_or-bitwise,
}
use mathlib.Core.Path.{◌≡◌, refl}
use mathlib.Core.Logic.{◌↔◌}
use native.Mathlib.Nat.{le_refl}
use native.Mathlib.Omega.{arith}

-- The fuel of the digit recursion does not matter once it is enough.
module _ (end : ℕ → ℕ) (op : ℕ → ℕ → ℕ) where
  digits-enough : (p q x y : ℕ) → x ≤ p → x ≤ q → digits end op p x y ≡ digits end op q x y
  digits-enough p q zero y hp hq = ends p q
    where
      ends : (p q : ℕ) → digits end op p zero y ≡ digits end op q zero y
      ends zero zero = refl
      ends zero (suc q) = refl
      ends (suc p) zero = refl
      ends (suc p) (suc q) = refl
  digits-enough zero q (suc x) y hp hq = absurd (omega arith)
  digits-enough (suc p) zero (suc x) y hp hq = absurd (omega arith)
  digits-enough (suc p) (suc q) (suc x) y hp hq =
      rw (digits-enough p q (suc x / 2) (y / 2) (omega arith) (omega arith)) refl

bit_or-halves : (x y : ℕ) → bit_or x y ≡ bit_or (x / 2) (y / 2) * 2 + max (x % 2) (y % 2)
bit_or-halves zero y = simp bit_or-bitwise (omega arith)
bit_or-halves (suc x) y = simp bit_or-bitwise (
    omega (
      arith,
      digits-enough (λ b. b) max x (suc x / 2) (suc x / 2) (y / 2) (omega arith) (le_refl _),
    ))

bit_and-halves : (x y : ℕ) → bit_and x y ≡ bit_and (x / 2) (y / 2) * 2 + min (x % 2) (y % 2)
bit_and-halves zero y = simp bit_and-bitwise (omega arith)
bit_and-halves (suc x) y = simp bit_and-bitwise (
    omega (
      arith,
      digits-enough (λ b. 0) min x (suc x / 2) (suc x / 2) (y / 2) (omega arith) (le_refl _),
    ))

-- In both, `n` bounds the halvings.
and_zero : (n x : ℕ) → x ≤ n → bit_and x 0 ≡ 0
and_zero n zero h = refl
and_zero zero (suc x) h = absurd (omega arith)
and_zero (suc n) (suc x) h =
    omega (arith, bit_and-halves (suc x) 0, and_zero n (suc x / 2) (omega arith))

and-or-zero :
    (n x m q : ℕ) → q ≤ n → (bit_and (bit_or x m) q ≡ 0) ↔ ((bit_and x q ≡ 0) × (bit_and m q ≡ 0))
and-or-zero n x m zero h = ground (
  arith,
  and_zero (bit_or x m) (bit_or x m) (omega arith),
  and_zero x x (omega arith),
  and_zero m m (omega arith),
)
and-or-zero zero x m (suc q) h = absurd (omega arith)
and-or-zero (suc n) x m (suc q) h = ground (
  arith,
  bit_and-halves (bit_or x m) (suc q),
  bit_or-halves x m,
  bit_and-halves x (suc q),
  bit_and-halves m (suc q),
  and-or-zero n (x / 2) (m / 2) (suc q / 2) (omega arith),
)

pub bit_and-bit_or :
    (x m q : ℕ) → (bit_and (bit_or x m) q ≡ 0) ↔ ((bit_and x q ≡ 0) × (bit_and m q ≡ 0))
bit_and-bit_or x m q = and-or-zero q x m q (le_refl _)

-- Bits that are set, and bits that are masked out.
or_covers : (n x m q : ℕ) → q ≤ n → bit_and m q ≡ q → bit_and (bit_or x m) q ≡ q
or_covers n x m zero h e = and_zero (bit_or x m) (bit_or x m) (omega arith)
or_covers zero x m (suc q) h e = absurd (omega arith)
or_covers (suc n) x m (suc q) h e =
    let high : bit_and (m / 2) (suc q / 2) ≡ suc q / 2 =
      omega (arith, e, bit_and-halves m (suc q)) in
    let half : bit_or x m / 2 ≡ bit_or (x / 2) (m / 2) = omega (arith, bit_or-halves x m) in
    let rest : bit_and (bit_or x m / 2) (suc q / 2) ≡ suc q / 2 =
      rw half (or_covers n (x / 2) (m / 2) (suc q / 2) (omega arith) high) in
    omega (
      arith,
      e,
      bit_and-halves (bit_or x m) (suc q),
      bit_or-halves x m,
      bit_and-halves m (suc q),
      rest,
    )

pub bit_or_covers : (x m q : ℕ) → bit_and m q ≡ q → bit_and (bit_or x m) q ≡ q
bit_or_covers x m q e = or_covers q x m q (le_refl _) e

and_clears : (n x m q : ℕ) → q ≤ n → bit_and m q ≡ 0 → bit_and (bit_and x m) q ≡ 0
and_clears n x m zero h e = and_zero (bit_and x m) (bit_and x m) (omega arith)
and_clears zero x m (suc q) h e = absurd (omega arith)
and_clears (suc n) x m (suc q) h e =
    let high : bit_and (m / 2) (suc q / 2) ≡ 0 = omega (arith, e, bit_and-halves m (suc q)) in
    let half : bit_and x m / 2 ≡ bit_and (x / 2) (m / 2) = omega (arith, bit_and-halves x m) in
    let rest : bit_and (bit_and x m / 2) (suc q / 2) ≡ 0 =
      rw half (and_clears n (x / 2) (m / 2) (suc q / 2) (omega arith) high) in
    omega (
      arith,
      e,
      bit_and-halves (bit_and x m) (suc q),
      bit_and-halves x m,
      bit_and-halves m (suc q),
      rest,
    )

pub bit_and_clears : (x m q : ℕ) → bit_and m q ≡ 0 → bit_and (bit_and x m) q ≡ 0
bit_and_clears x m q e = and_clears q x m q (le_refl _) e

pub bit_and_zero : (q : ℕ) → bit_and 0 q ≡ 0
bit_and_zero q = simp bit_and-bitwise refl

-- `flags & ~mask`
abbrev pub without : ℕ → ℕ → ℕ
without mask f = f - bit_and f mask

-- ===== src/Prelude/Bytes.antt =====
-- Bytes and the order of bytes in a word.
use Prim.Native.Char.{code}
use Prim.Native.String.{String}
use Prim.Native.Nat.{ℕ, zero, suc, ◌+◌, ◌*◌, ◌/◌, ◌%◌, ◌<◌, bit_and, bit_or}
use mathlib.Core.Path.{◌≡◌, refl}
use mathlib.Core.Bool.{Bool, true, false, ◌&&◌}
use mathlib.Core.List.{List, [], ◌∷◌, ◌++◌}
use native.Mathlib.Omega.{arith}
use fido2_manage.Prelude.Tests.{◌==◌, ==_iff, if◌then◌else◌}
use fido2_manage.Prelude.Lists.{get_or}

abbrev pub IsByte : ℕ → Type 0
IsByte b = b < 256

-- A uint32_t as it lies in memory on a little-endian host.
abbrev pub le32 : ℕ → List ℕ
le32 n = n % 256 ∷ n / 256 % 256 ∷ n / 65536 % 256 ∷ n / 16777216 % 256 ∷ []

-- A uint64_t, likewise.
abbrev pub le64 : ℕ → List ℕ
le64 n = le32 n ++ le32 (n / 4294967296)

abbrev pub rd_le32 : List ℕ → ℕ
rd_le32 bs = get_or bs 0 0 + get_or bs 1 0 * 256 + get_or bs 2 0 * 65536 + get_or bs 3 0 * 16777216

-- The values under a bound that fail a test, to be found by evaluation.
unfoldable pub exceptions : (ℕ → Bool) → ℕ → List ℕ
exceptions test zero = []
exceptions test (suc b) = let lower = exceptions test b in if test b then lower else b ∷ lower

pub exceptions-none : (test : ℕ → Bool) (b k : ℕ) → exceptions test b ≡ [] → k < b → test k ≡ true
unfolding exceptions
exceptions-none test zero k none k<b = absurd (omega arith)
exceptions-none test (suc b) k none k<b = ground (arith, exceptions-none test b k)

set_top_table : exceptions (λ x. bit_or 0x80 x == x + 128) 128 ≡ []
unfolding exceptions
set_top_table = refl

-- CTAP_FRAME_INIT | cmd
pub set_top_bit : (x : ℕ) → x < 128 → bit_or 0x80 x ≡ x + 128
set_top_bit x h = (==_iff _ _).0 (exceptions-none _ 128 _ set_top_table h)

top_bit_table : exceptions (λ x. bit_and x 0x80 == 0) 128 ≡ []
unfolding exceptions
top_bit_table = refl

pub top_bit_clear : (x : ℕ) → x < 128 → bit_and x 0x80 ≡ 0
top_bit_clear x h = (==_iff _ _).0 (exceptions-none _ 128 _ top_bit_table h)

abbrev pub bytes_eq : List ℕ → List ℕ → Bool
bytes_eq [] [] = true
bytes_eq [] (y ∷ ys) = false
bytes_eq (x ∷ xs) [] = false
bytes_eq (x ∷ xs) (y ∷ ys) = x == y && bytes_eq xs ys

pub bytes_eq_sound : (xs ys : List ℕ) → bytes_eq xs ys ≡ true → xs ≡ ys
bytes_eq_sound [] [] h = refl
bytes_eq_sound [] (y ∷ ys) h = cc
bytes_eq_sound (x ∷ xs) [] h = cc
bytes_eq_sound (x ∷ xs) (y ∷ ys) h = ground (arith, bytes_eq_sound xs ys, h)

pub bytes_eq_refl : (xs : List ℕ) → bytes_eq xs xs ≡ true
bytes_eq_refl [] = refl
bytes_eq_refl (x ∷ xs) = ground (arith, bytes_eq_refl xs)

-- A name is not equal to two names.
pub bytes_eq-other :
    (xs ys zs : List ℕ) → bytes_eq ys zs ≡ false → bytes_eq xs ys ≡ true → bytes_eq xs zs ≡ false
bytes_eq-other xs ys zs ne e = rw (bytes_eq_sound xs ys e) ne

-- The characters of a text literal, as their numbers.
abbrev pub codes : String → List ℕ
codes String.[] = []
codes (String.◌∷◌ c s) = code c ∷ codes s

-- ===== src/Platform.antt =====
-- What the library calls and does not implement, as one state: the driver's read and write
-- functions (`fido_dev_io_t` of src/fido/types.h) and the system's monotonic clock.
-- It also holds the caller's `int ms`, which every function updates through `int *ms`.
use fido2_manage.Prelude.{ℕ, ◌+◌, ◌≡◌, refl, List, [], ◌∷◌, ◌++◌, Option, none, some, ℤ, take}
use mathlib.Core.Option

-- `struct timespec`
pub record Timespec : Type 0 where
  pub tv_sec : ℤ
  pub tv_nsec : ℤ

-- `sent` logs the packets handed to the driver's write, oldest first. `accepts` is what that call
-- returns (`none` for a negative value), as a function of the packets before it and of this one.
-- `incoming` is what the calls of read will give, in order: the bytes stored, or `none` for a
-- negative return. `clock n` is the outcome of the n-th call of `clock_gettime`.
pub record World : Type 0 where
  pub sent : List (List ℕ)
  pub accepts : List (List ℕ) → List ℕ → Option ℕ
  pub incoming : List (Option (List ℕ))
  pub clock : ℕ → Option Timespec
  pub ticks : ℕ
  pub ms : ℤ

-- `fail` is the C value -1. `hang` is no C value: the model's fuel ran out.
pub data Result {ℓ} (A : Type ℓ) : Type ℓ where
  ok : A → Result A
  fail : Result A
  hang : Result A

abbrev pub M : Type 0 → Type 0
M T = World → Result T × World

abbrev pub return : {T : Type 0} → T → M T
return value w = (ok value, w)

-- What was done before a failure stays done.
abbrev pub continue : {A B : Type 0} → (A → M B) → Result A × World → Result B × World
continue rest (ok value, after) = rest value after
continue rest (fail, after) = (fail, after)
continue rest (hang, after) = (hang, after)

infixl 5 ◌>>=◌ ◌>>◌
abbrev pub ◌>>=◌ : {A B : Type 0} → M A → (A → M B) → M B
(call >>= rest) w = continue rest (call w)

abbrev pub ◌>>◌ : {B : Type 0} → M (Unit {0}) → M B → M B
(call >> rest) w = continue (λ _. rest) (call w)

abbrev pub failure : {A : Type 0} → M A
failure w = (fail, w)

abbrev pub of_option : {A : Type 0} → Option A → M A
of_option none w = (fail, w)
of_option (some a) w = (ok a, w)

-- The value of a call whose failure the caller handles after doing more.
abbrev pub attempt_result : {A : Type 0} → Result A × World → Result (Option A) × World
attempt_result (ok a, w) = (ok (some a), w)
attempt_result (fail, w) = (ok none, w)
attempt_result (hang, w) = (hang, w)

abbrev pub attempt : {A : Type 0} → M A → M (Option A)
attempt m w = attempt_result (m w)

pub continue-ok :
    {A B : Type 0} (f : A → M B) (r : Result A × World) (a : A)
    → r.0 ≡ ok a
    → continue f r ≡ f a r.1
continue-ok f (ok b, w) a h = cc
continue-ok f (fail, w) a h = cc
continue-ok f (hang, w) a h = cc

-- Doing two things and then a third is doing one and then two.
pub continue-continue :
    {A B C : Type 0} (f : A → M B) (g : B → M C) (r : Result A × World)
    → continue (λ a w. continue g (f a w)) r ≡ continue g (continue f r)
continue-continue f g (ok a, w) = refl
continue-continue f g (fail, w) = refl
continue-continue f g (hang, w) = refl

-- `d->io.write(d->io_handle, pkt, len)`
unfoldable pub io_write : List ℕ → M (Option ℕ)
io_write pkt w = (ok (w.accepts w.sent pkt), record w { sent = w.sent ++ (pkt ∷ []) })

next_read : List (Option (List ℕ)) → Option (List ℕ) × List (Option (List ℕ))
next_read [] = (none, [])
next_read (r ∷ rs) = (r, rs)

-- `d->io.read(d->io_handle, buf, len, ms)`: a driver stores at most `len` bytes.
unfoldable pub io_read : ℕ → M (Option (List ℕ))
unfolding next_read
io_read len w =
    let (r, rest) = next_read w.incoming in
    (ok (Option.map (take len) r), record w { incoming = rest })

-- `clock_gettime(CLOCK_MONOTONIC, &ts)`
unfoldable pub clock_gettime : M (Option Timespec)
clock_gettime w = (ok (w.clock w.ticks), record w { ticks = w.ticks + 1 })

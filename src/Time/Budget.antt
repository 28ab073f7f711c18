-- ===== src/Time/Budget.antt =====
-- How `fido_time_delta` charges the time that passed to the caller's budget.
use fido2_manage.Prelude.{ℕ, ◌+◌, ◌-◌, ◌*◌, ◌/◌, ◌≤◌, ◌<◌, ◌≡◌, some, pos, ◌≤ℤ◌, arith}
use fido2_manage.Platform.{Timespec, World, ok}
use fido2_manage.Time.{timespec_to_ms, timespec_sub, elapsed, time_delta, nsec_per_sec}

-- A clock reading of `s` seconds and `n` nanoseconds.
abbrev pub at : ℕ → ℕ → Timespec
at s n = record { tv_sec = pos s; tv_nsec = pos n }

abbrev pub nanos : ℕ → ℕ → ℕ
nanos s n = s * 1_000_000_000 + n

-- Between two well-formed readings the code's milliseconds are those of the difference.
pub timespec_to_ms-sub :
    (s n s' n' : ℕ)
    → n < nsec_per_sec
    → n' < nsec_per_sec
    → nanos s n ≤ nanos s' n'
    → nanos s' n' < nanos s n + 2_000_000_000_000_000
    → timespec_to_ms (timespec_sub (at s' n') (at s n))
      ≡ some ((nanos s' n' - nanos s n) / 1_000_000)
unfolding timespec_to_ms
timespec_to_ms-sub s n s' n' hn hn' le lt = ground arith

elapsed_lem :
    (s n s' n' : ℕ)
    → n < nsec_per_sec
    → n' < nsec_per_sec
    → nanos s n ≤ nanos s' n'
    → nanos s' n' < nanos s n + 2_000_000_000_000_000
    → elapsed (at s n) (some (at s' n')) ≡ some ((nanos s' n' - nanos s n) / 1_000_000)
unfolding elapsed
elapsed_lem s n s' n' hn hn' le lt = ground (arith, timespec_to_ms-sub s n s' n' hn hn' le lt)

-- A call with `m` milliseconds left, between two well-formed readings at most 2 * 10 ^ 6 seconds
-- apart, succeeds and takes the milliseconds that passed off the budget, which stops at 0.
pub time_delta_lem :
    (s n s' n' m : ℕ) (w : World)
    → w.ms ≡ pos m
    → w.clock w.ticks ≡ some (at s' n')
    → n < nsec_per_sec
    → n' < nsec_per_sec
    → nanos s n ≤ nanos s' n'
    → nanos s' n' < nanos s n + 2_000_000_000_000_000
    → time_delta (at s n) w ≡ (
      ok tt,
      record w { ticks = w.ticks + 1; ms = pos (m - (nanos s' n' - nanos s n) / 1_000_000) },
    )
unfolding time_delta
time_delta_lem s n s' n' m w hm hc hn hn' le lt = ground (arith, elapsed_lem s n s' n' hn hn' le lt)

-- Whatever the clock does, a successful call never extends a budget, and never turns a finite
-- budget into an unlimited one.
pub time_delta_bounds :
    (start : Timespec) (w w' : World)
    → time_delta start w ≡ (ok tt, w')
    → (w'.ms ≤ℤ w.ms) × (pos 0 ≤ℤ w.ms → pos 0 ≤ℤ w'.ms)
unfolding time_delta
time_delta_bounds start w w' h = ground arith

-- ===== src/Time.antt =====
-- src/time.c: the time budget of an operation. The comparison and the subtraction are the macros
-- of openbsd-compat/time.h.
pub mod Budget
pub mod Steady
mod Tests
use fido2_manage.Prelude.{
  ℕ, suc, ◌+◌, ◌-◌, ◌*◌, ◌/◌, ◌^◌, Bool, ◌||◌, Option, none, some, ℤ, pos, negsuc, pos_part, ◌+ℤ◌,
  ◌-ℤ◌, ltb_ℤ, eqb_ℤ, ltb, if◌then◌else◌, arith,
}
use fido2_manage.Platform.{
  Timespec, World, M, ok, fail, ◌>>=◌, of_option, clock_gettime, return, failure,
}

abbrev pub int64_max : ℕ
int64_max = 2 ^ 63 - 1

abbrev pub int_max : ℕ
int_max = 2 ^ 31 - 1

abbrev pub nsec_per_sec : ℕ
nsec_per_sec = 1_000_000_000

-- `timespeccmp(a, b, <)`
abbrev pub timespec_lt : Timespec → Timespec → Bool
timespec_lt a b =
    if eqb_ℤ a.tv_sec b.tv_sec then ltb_ℤ a.tv_nsec b.tv_nsec else ltb_ℤ a.tv_sec b.tv_sec

-- `timespecsub(a, b, &d)`
abbrev pub timespec_sub : Timespec → Timespec → Timespec
timespec_sub a b =
    let sec = a.tv_sec -ℤ b.tv_sec in
    let nsec = a.tv_nsec -ℤ b.tv_nsec in
    if ltb_ℤ nsec (pos 0)
    then record { tv_sec = sec -ℤ pos 1; tv_nsec = nsec +ℤ pos nsec_per_sec }
    else record { tv_sec = sec; tv_nsec = nsec }

-- `none` is the C value -1. Past the first test both fields are at least 0.
unfoldable pub timespec_to_ms : Timespec → Option ℕ
timespec_to_ms ts =
    let x = pos_part ts.tv_sec * 1000 in
    let y = pos_part ts.tv_nsec / 1_000_000 in
    if ltb_ℤ ts.tv_sec (pos 0)
      || ltb_ℤ ts.tv_nsec (pos 0)
      || ltb (nsec_per_sec - 1) (pos_part ts.tv_nsec)
    then none
    else if ltb (int64_max / 1000 - 1) (pos_part ts.tv_sec)
    then none
    else if ltb (int64_max - x) y || ltb int_max (x + y)
    then none
    else some (x + y)

unfoldable pub time_now : M Timespec
unfolding clock_gettime
time_now = do t ← clock_gettime; of_option t

-- `if (ms > *ms_remain) ms = *ms_remain; *ms_remain -= ms;`
abbrev spend : ℕ → M (Unit {0})
spend ms w =
    let ms' = if ltb_ℤ w.ms (pos ms) then w.ms else pos ms in (ok tt, record w { ms = w.ms -ℤ ms' })

-- The milliseconds between `start` and the reading, if there is one and it is not earlier.
unfoldable pub elapsed : Timespec → Option Timespec → Option ℕ
unfolding timespec_to_ms
elapsed start none = none
elapsed start (some end) =
    if timespec_lt end start then none else timespec_to_ms (timespec_sub end start)

-- A negative `*ms_remain` stands for no limit.
unfoldable pub time_delta : Timespec → M (Unit {0})
unfolding clock_gettime
time_delta start w = if ltb_ℤ w.ms (pos 0) then (ok tt, w) else measured w
  where
    measured : M (Unit {0})
    measured = do t ← clock_gettime; ms ← of_option (elapsed start t); spend ms

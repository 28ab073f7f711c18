-- ===== src/Time/Tests.antt =====
-- Runs of the time budget, and its theorems at concrete readings.
use fido2_manage.Prelude.{◌≡◌, refl, [], some, length, pos, negsuc, ◌≤ℤ◌, arith}
use fido2_manage.Platform.{World, ok, fail}
use fido2_manage.Time.{elapsed, time_delta}
use fido2_manage.Time.Budget.{at, time_delta_lem, time_delta_bounds}

-- 5 seconds are left, and the clock reads 11.2 s.
abbrev early : World
early = record {
  sent = [];
  accepts = λ s p. some (length p);
  incoming = [];
  clock = λ n. some (at 11 200_000_000);
  ticks = 0;
  ms = pos 5000;
}

abbrev unlimited : World
unlimited = record early { ms = negsuc 0 }

-- A nanosecond borrow: from 9.9 s to 11.2 s are 1300 ms.
time_delta_borrow :
    time_delta (at 9 900_000_000) early ≡ (ok tt, record early { ticks = 1; ms = pos 3700 })
unfolding time_delta elapsed
time_delta_borrow = refl

time_delta_no_limit : time_delta (at 9 900_000_000) unlimited ≡ (ok tt, unlimited)
unfolding time_delta
time_delta_no_limit = refl

-- A clock that went back fails the call.
time_delta_backwards : (time_delta (at 12 0) early).0 ≡ fail
unfolding time_delta elapsed
time_delta_backwards = refl

time_delta_lem_example :
    time_delta (at 9 900_000_000) early ≡ (ok tt, record early { ticks = 1; ms = pos 3700 })
time_delta_lem_example =
    time_delta_lem 9 900_000_000 11 200_000_000 5000 early refl refl (omega arith) (omega arith)
      (omega arith) (omega arith)

time_delta_bounds_example : (pos 3700 ≤ℤ pos 5000) × (pos 0 ≤ℤ pos 5000 → pos 0 ≤ℤ pos 3700)
time_delta_bounds_example =
    time_delta_bounds (at 9 900_000_000) early (record early { ticks = 1; ms = pos 3700 })
      time_delta_borrow

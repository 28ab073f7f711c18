-- ===== src/Time/Steady.antt =====
-- Worlds in which nothing outside the library fails.
use fido2_manage.Prelude.{ℕ, ◌+◌, ◌≡◌, Option, some, arith}
use fido2_manage.Platform.{Timespec, World, ok}
use fido2_manage.Time.{elapsed, time_now, time_delta}

-- The clock always answers, and the time from one reading to the next is an amount that the
-- library can represent.
abbrev pub SteadyClock : (ℕ → Option Timespec) → Type 0
SteadyClock c =
    (n : ℕ) → (t : Timespec) × (ms : ℕ) × (c n ≡ some t) × (elapsed t (c (n + 1)) ≡ some ms)

-- Only the clock's count of calls and the budget may differ.
pub record Timed (w w' : World) : Type 0 where
  pub sent : w'.sent ≡ w.sent
  pub accepts : w'.accepts ≡ w.accepts
  pub incoming : w'.incoming ≡ w.incoming
  pub clock : w'.clock ≡ w.clock

-- A reading, work that leaves the clock alone, and the charge for it.
pub time_now_lem :
    (w : World) (t : Timespec)
    → w.clock w.ticks ≡ some t
    → time_now w ≡ (ok t, record w { ticks = w.ticks + 1 })
unfolding time_now
time_now_lem w t h = ground arith

pub time_delta-ok :
    (w : World) (t : Timespec) (ms : ℕ)
    → elapsed t (w.clock w.ticks) ≡ some ms
    → ((time_delta t w).0 ≡ ok tt) × Timed w (time_delta t w).1
unfolding time_delta
time_delta-ok w t ms h = ground arith

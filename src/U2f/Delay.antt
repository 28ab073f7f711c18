-- ===== src/U2f/Delay.antt =====
-- src/u2f.c: the pause between two attempts, and the caller's budget.
use fido2_manage.Prelude.{
  ℕ, ◌*◌, ◌-◌, ◌≡◌, not, ◌&&◌, ltb, ltb_ℤ, ℤ, pos, negsuc, pos_part, if◌then◌else◌, Bool-cases, inl,
  inr, arith,
}
use fido2_manage.Platform.{World, Result, ok, fail, hang, continue}
use fido2_manage.U2f.{Calls, delay_ms, take_off}

-- What is left of a budget, which may be unlimited.
abbrev pub charged : ℕ → ℤ → ℤ
charged ms (pos left) = pos (left - ms)
charged ms (negsuc n) = negsuc n

-- The pause is no longer than what is left.
shortened : (ms : ℕ) (left : ℤ) → ℕ
shortened ms left = if not (ltb_ℤ left (pos 0)) && ltb (pos_part left) ms then pos_part left else ms

take_off-charged :
    (ms : ℕ) (w : World) (left : ℤ)
    → w.ms ≡ left
    → (take_off (shortened ms left) w).1.ms ≡ charged ms left
unfolding shortened
take_off-charged ms w (pos left) e = ground (arith, e)
take_off-charged ms w (negsuc n) e = ground (arith, e)

slept-charged :
    (ms : ℕ) (left : ℤ) (r : Result (Unit {0}) × World)
    → r.1.ms ≡ left
    → (continue (λ _. take_off (shortened ms left)) r).0 ≡ ok tt
    → (continue (λ _. take_off (shortened ms left)) r).1.ms ≡ charged ms left
slept-charged ms left (ok u, w) e h = take_off-charged ms w left e
slept-charged ms left (fail, w) e h = cc
slept-charged ms left (hang, w) e h = cc

-- If sleeping leaves the budget alone, a pause that succeeds takes exactly its length off a budget,
-- which stops at 0, and it leaves an unlimited budget as it was.
pub delay_ms-charged :
    (c : Calls) (ms : ℕ) (w : World)
    → ((n : ℕ) (v : World) → (c.usleep n v).1.ms ≡ v.ms)
    → (delay_ms c ms w).0 ≡ ok tt
    → (delay_ms c ms w).1.ms ≡ charged ms w.ms
unfolding delay_ms shortened
delay_ms-charged c ms w keeps h = elim (Bool-cases (ltb 4294967 (shortened ms w.ms))) [
  | inl over ↦ absurd (cc (rw over at h))
  | inr fits ↦
      rw fits
        (slept-charged ms w.ms (c.usleep (shortened ms w.ms * 1000) w) (keeps _ w) (rw fits at h))
]

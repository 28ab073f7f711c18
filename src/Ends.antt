-- ===== src/Ends.antt =====
-- Calls that end whatever the driver and the clock do, with what is known of their values.
use fido2_manage.Prelude.{
  ℕ, ◌<◌, ◌≡◌, ◌≢◌, refl, ap, subst, Bool, true, false, List, [], ◌∷◌, Option, none, some, length,
  if◌then◌else◌, arith,
}
use fido2_manage.Platform.{
  Timespec, World, Result, ok, fail, hang, M, continue, failure, return, of_option, io_read, ◌>>◌,
}
use fido2_manage.Time.{time_now, time_delta}

-- A call that ends, whose value is as stated, and after which at most as many reads are left.
pub record Ends {A : Type 0} (P : A → World → Type 0) (r : Result A × World) : Type 0 where
  pub ends : r.0 ≢ hang
  pub value : (a : A) → r.0 ≡ ok a → P a r.1

pub time_now-Ends : (w : World) → Ends (λ t v. v.incoming ≡ w.incoming) (time_now w)
unfolding time_now
time_now-Ends w = record { ends = ground arith; value = λ a. ground arith }

pub time_delta-Ends :
    (t : Timespec) (w : World) → Ends (λ u v. v.incoming ≡ w.incoming) (time_delta t w)
unfolding time_delta
time_delta-Ends t w = record { ends = ground arith; value = λ a. ground arith }

pub continue-Ends :
    {A B : Type 0} {P : A → World → Type 0} {Q : B → World → Type 0} (f : A → M B)
    (r : Result A × World)
    → Ends P r
    → ((a : A) (w : World) → P a w → Ends Q (f a w))
    → Ends Q (continue f r)
continue-Ends f (ok a, w) h k = k a w (h.value a refl)
continue-Ends f (fail, w) h k = record { ends = λ e. cc; value = λ b e. cc }
continue-Ends f (hang, w) h k = absurd (h.ends refl)

pub io_read-Ends :
    (n : ℕ) (w : World)
    → Ends
        (λ r v. (bs : List ℕ) → r ≡ some bs → length v.incoming < length w.incoming)
        (io_read n w)
unfolding io_read
io_read-Ends n w = go w.incoming refl
  where
    go :
        (l : List (Option (List ℕ)))
        → w.incoming ≡ l
        → Ends
            (λ r v. (bs : List ℕ) → r ≡ some bs → length v.incoming < length w.incoming)
            (io_read n w)
    go [] e = record { ends = λ h. cc; value = λ a h bs q. ground (arith, e) }
    go (r ∷ rs) e = record { ends = λ h. cc; value = λ a h bs q. ground (arith, e) }

-- A failing test ends a call, and a passing one is known in what follows.
pub guard-Ends :
    {A : Type 0} {Q : A → World → Type 0} (b : Bool) (k : M A) (w : World)
    → (b ≡ true → Ends Q (k w))
    → Ends Q (((if b then return tt else failure) >> k) w)
guard-Ends true k w h = h refl
guard-Ends false k w h = record { ends = λ e. cc; value = λ a e. cc }

pub guard_not-Ends :
    {A : Type 0} {Q : A → World → Type 0} (b : Bool) (k : M A) (w : World)
    → (b ≡ false → Ends Q (k w))
    → Ends Q (((if b then failure else return tt) >> k) w)
guard_not-Ends false k w h = h refl
guard_not-Ends true k w h = record { ends = λ e. cc; value = λ a e. cc }

pub of_option-Ends :
    {A : Type 0} (r : Option A) (w : World)
    → Ends (λ a v. (r ≡ some a) × (v.incoming ≡ w.incoming)) (of_option r w)
of_option-Ends none w = record { ends = λ e. cc; value = λ a e. cc }
of_option-Ends (some a) w = record { ends = λ e. cc; value = λ b e. (cc, refl) }

pub ok-injective : {A : Type 0} (a b : A) → ok a ≡ ok b → a ≡ b
ok-injective a b e = cc

pub return-Ends :
    {A : Type 0} {P : A → World → Type 0} (a : A) (w : World) → P a w → Ends P (return a w)
return-Ends {P = P} a w h = record {
  ends = λ e. cc;
  value = λ b e. subst (λ x. P x w) (ok-injective a b e) h;
}

pub weaken-Ends :
    {A : Type 0} {P Q : A → World → Type 0} (r : Result A × World)
    → Ends P r
    → ((a : A) (v : World) → P a v → Q a v)
    → Ends Q r
weaken-Ends r h k = record { ends = h.ends; value = λ a e. k a r.1 (h.value a e) }

-- The outcome of a call that ends, beside what is known of it.
pub outcome-Ends :
    {A : Type 0} {P : A → World → Type 0} (r : Result A × World)
    → Ends P r
    → Ends (λ a v. P a v × (r ≡ (ok a, v))) r
outcome-Ends r h = record { ends = h.ends; value = λ a e. (h.value a e, ap (λ x. (x, r.1)) e) }

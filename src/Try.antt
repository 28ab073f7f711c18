-- ===== src/Try.antt =====
-- Calls that give a value or a code of src/fido/err.h. A `goto fail` with the code in `r` skips the
-- rest, and what was done before stays done.
use fido2_manage.Prelude.{◌≡◌, refl, ap, subst, ℤ, Option, none, some}
use fido2_manage.Platform.{World, Result, ok, fail, hang, M, continue, return}
use fido2_manage.Ends.{Ends, return-Ends, continue-Ends}

pub data Ret (A : Type 0) : Type 0 where
  val : A → Ret A
  err : ℤ → Ret A

abbrev pub Try : Type 0 → Type 0
Try A = M (Ret A)

abbrev pub rest_of : {A B : Type 0} → (A → Try B) → Ret A → Try B
rest_of rest (val value) = rest value
rest_of rest (err code) = return (err code)

infixl 5 ◌>>=◌ ◌>>◌
abbrev pub ◌>>=◌ : {A B : Type 0} → Try A → (A → Try B) → Try B
(call >>= rest) w = continue (rest_of rest) (call w)

abbrev pub ◌>>◌ : {B : Type 0} → Try (Unit {0}) → Try B → Try B
(call >> rest) w = continue (rest_of (λ _. rest)) (call w)

abbrev pub give : {A : Type 0} → A → Try A
give value = return (val value)

abbrev pub throw : {A : Type 0} → ℤ → Try A
throw code = return (err code)

abbrev pub value_or : {A : Type 0} → ℤ → Option A → Ret A
value_or code none = err code
value_or code (some value) = val value

abbrev pub try_option : {A : Type 0} → ℤ → Option A → Try A
try_option code o = return (value_or code o)

-- `if (call < 0) { r = code; goto fail; }`
abbrev pub or_code : {A : Type 0} → ℤ → Result A × World → Result (Ret A) × World
or_code code (ok value, w) = (ok (val value), w)
or_code code (fail, w) = (ok (err code), w)
or_code code (hang, w) = (hang, w)

abbrev pub try : {A : Type 0} → ℤ → M A → Try A
try code call w = or_code code (call w)

-- What holds of a value, and what of a code.
abbrev pub OnRet : {A : Type 0} → (ℤ → Type 0) → (A → World → Type 0) → Ret A → World → Type 0
OnRet E P (val value) w = P value w
OnRet E P (err code) w = E code

module _ (E : ℤ → Type 0) where
  pub or_code-Ends :
      {A : Type 0} {P : A → World → Type 0} (code : ℤ) (r : Result A × World)
      → E code
      → Ends P r
      → Ends (OnRet E P) (or_code code r)
  or_code-Ends code (ok value, w) e h = return-Ends (val value) w (h.value value refl)
  or_code-Ends code (fail, w) e h = return-Ends (err code) w e
  or_code-Ends code (hang, w) e h = absurd (h.ends refl)

  pub then-Ends :
      {A B : Type 0} {P : A → World → Type 0} {Q : B → World → Type 0} (rest : A → Try B)
      (r : Result (Ret A) × World)
      → Ends (OnRet E P) r
      → ((a : A) (w : World) → P a w → Ends (OnRet E Q) (rest a w))
      → Ends (OnRet E Q) (continue (rest_of rest) r)
  then-Ends {A = A} {P = P} {Q = Q} rest r h k = continue-Ends (rest_of rest) r h each
    where
      each : (a : Ret A) (w : World) → OnRet E P a w → Ends (OnRet E Q) (rest_of rest a w)
      each (val value) w p = k value w p
      each (err code) w p = return-Ends (err code) w p

  pub try_option-Ends :
      {A : Type 0} (code : ℤ) (o : Option A) (w : World)
      → E code
      → Ends (OnRet E (λ a v. o ≡ some a)) (try_option code o w)
  try_option-Ends code none w e = return-Ends (err code) w e
  try_option-Ends code (some value) w e = return-Ends (val value) w refl

  pub throw-Ends :
      {A : Type 0} {P : A → World → Type 0} (code : ℤ) (w : World)
      → E code
      → Ends (OnRet E P) (throw {A = A} code w)
  throw-Ends code w e = return-Ends (err code) w e

  pub give-Ends :
      {A : Type 0} {P : A → World → Type 0} (value : A) (w : World)
      → P value w
      → Ends (OnRet E P) (give value w)
  give-Ends value w p = return-Ends (val value) w p

pub then-some :
    {A B : Type 0} (code : ℤ) (o : Option A) (rest : A → Try B) (a : A) (w : World)
    → o ≡ some a
    → continue (rest_of rest) (try_option code o w) ≡ rest a w
then-some code o rest a w e = rw e refl

module _ (E : ℤ → Type 0) where
  -- What follows a value that is at hand runs in the same world.
  pub option-Ends :
      {A B : Type 0} {Q : B → World → Type 0} (code : ℤ) (o : Option A) (rest : A → Try B)
      (w : World)
      → E code
      → ((a : A) → o ≡ some a → Ends (OnRet E Q) (rest a w))
      → Ends (OnRet E Q) (continue (rest_of rest) (try_option code o w))
  option-Ends code none rest w e h = return-Ends (err code) w e
  option-Ends code (some a) rest w e h = h a refl

pub OnRet-map :
    {A : Type 0} (E : ℤ → Type 0) (P Q : A → World → Type 0) (r : Ret A) (v : World)
    → ((a : A) → P a v → Q a v)
    → OnRet E P r v
    → OnRet E Q r v
OnRet-map E P Q (val a) v f h = f a h
OnRet-map E P Q (err code) v f h = h

-- What holds of the value, if there is one.
abbrev pub OnVal : {A : Type 0} → (A → Type 0) → Result (Ret A) × World → Type 0
OnVal {A} Q r = (a : A) → r.0 ≡ ok (val a) → Q a

module _ {B : Type 0} (Q : B → Type 0) where
  pub option-OnVal :
      {A : Type 0} (code : ℤ) (o : Option A) (rest : A → Try B) (w : World)
      → ((a : A) → o ≡ some a → OnVal Q (rest a w))
      → OnVal Q (continue (rest_of rest) (try_option code o w))
  option-OnVal code none rest w h b e = cc
  option-OnVal code (some a) rest w h b e = h a refl b e

  pub try-OnVal :
      {A : Type 0} (code : ℤ) (r : Result A × World) (rest : A → Try B)
      → ((a : A) (w : World) → r ≡ (ok a, w) → OnVal Q (rest a w))
      → OnVal Q (continue (rest_of rest) (or_code code r))
  try-OnVal code (ok a, w) rest h b e = h a w refl b e
  try-OnVal code (fail, w) rest h b e = cc
  try-OnVal code (hang, w) rest h b e = cc

  pub give-OnVal : (b : B) (w : World) → Q b → OnVal Q (give b w)
  give-OnVal b w q b' e = subst Q (ap value e) q
    where
      value : Result (Ret B) → B
      value (ok (val x)) = x
      value r = b

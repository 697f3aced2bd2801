-- ===== src/Io.antt =====
-- Effects. A component's code is a program over its own data type `C` of calls to what lies outside
-- it: system calls, device registers, libraries, and the fields that other threads change. The
-- environment answers each call with a number, a function of the calls before it; the log keeps
-- every call with its answer, the newest first. A theorem for every environment is one for every
-- behaviour of the hardware, the operating system, the libraries and the scheduler.
use mzntapp_cpp.Base.{
  ℕ, zero, suc, ◌-◌, ◌^◌, ◌≡◌, refl, Bool, true, List, ◌∷◌, if◌then◌else◌, arith, ◌∙◌,
}

abbrev pub Log : Type 0 → Type 0
Log C = List (C × ℕ)

abbrev pub Env : Type 0 → Type 0
Env C = Log C → C → ℕ

-- `exited`: the code calls `exit`. `hung`: a busy wait outlived its fuel. `faulted`: the code has
-- undefined behaviour, or an exception leaves it.
pub data Outcome (C A : Type 0) : Type 0 where
  done : A → Log C → Outcome C A
  exited : Log C → Outcome C A
  hung : Log C → Outcome C A
  faulted : Log C → Outcome C A

abbrev pub Io : Type 0 → Type 0 → Type 0
Io C A = Env C → Log C → Outcome C A

-- -1 as an `int`, or as the pointer `MAP_FAILED`: both are 32 bits wide on the target.
abbrev pub failed : ℕ
failed = 2 ^ 32 - 1

module _ {C A : Type 0} where
  abbrev pub log_of : Outcome C A → Log C
  log_of (done a l) = l
  log_of (exited l) = l
  log_of (hung l) = l
  log_of (faulted l) = l

  abbrev pub pure : A → Io C A
  pure a env log = done a log

  abbrev pub hang : Io C A
  hang env log = hung log

  abbrev pub exit : Io C A
  exit env log = exited log

  abbrev pub fault : Io C A
  fault env log = faulted log

infixl 5 ◌>>=◌ ◌>>◌
abbrev pub ◌>>=◌ : {C A B : Type 0} → Io C A → (A → Io C B) → Io C B
◌>>=◌ m f env log = elim (m env log) [
  | done a l ↦ f a env l
  | exited l ↦ exited l
  | hung l ↦ hung l
  | faulted l ↦ faulted l
]

abbrev pub ◌>>◌ : {C B : Type 0} → Io C (Unit {0}) → Io C B → Io C B
m >> k = m >>= λ _. k

module _ {C : Type 0} where
  -- A call whose answer the code uses.
  abbrev pub ask : C → Io C ℕ
  ask c env log = done (env log c) ((c, env log c) ∷ log)

  -- A call whose answer it ignores.
  abbrev pub tell : C → Io C (Unit {0})
  tell c env log = done tt ((c, env log c) ∷ log)

  -- `do { v = read; } while (!ready(v));`
  unfoldable pub poll : ℕ → C → (ℕ → Bool) → Io C ℕ
  poll zero c ready env log = hung log
  poll (suc fuel) c ready env log =
      let answer = env log c in
      let again = poll fuel c ready env ((c, answer) ∷ log) in
      if ready answer then done answer ((c, answer) ∷ log) else again

-- The program returns, with a result and a log for which `P` holds.
abbrev pub Returns : {C A : Type 0} → Outcome C A → (A → Log C → Type 0) → Type 0
Returns (done a l) P = P a l
Returns (exited l) P = ⊥
Returns (hung l) P = ⊥
Returns (faulted l) P = ⊥

-- A program leaves a view of the log as it was, whatever the environment does.
abbrev pub Silent : {C A X : Type 0} → (Log C → X) → Io C A → Type 0
Silent {C} view m = (env : Env C) (log : Log C) → view (log_of (m env log)) ≡ view log

module _ {C X : Type 0} (view : Log C → X) where
  pub Silent-ask :
      (c : C) → ((n : ℕ) (l : Log C) → view ((c, n) ∷ l) ≡ view l) → Silent view (ask c)
  Silent-ask c h env log = h (env log c) log

  pub Silent-tell :
      (c : C) → ((n : ℕ) (l : Log C) → view ((c, n) ∷ l) ≡ view l) → Silent view (tell c)
  Silent-tell c h env log = h (env log c) log

  pub Silent-poll :
      (fuel : ℕ) (c : C) (ready : ℕ → Bool)
      → ((n : ℕ) (l : Log C) → view ((c, n) ∷ l) ≡ view l)
      → Silent view (poll fuel c ready)
  unfolding poll
  Silent-poll zero c ready h env log = refl
  Silent-poll (suc fuel) c ready h env log =
      ground (arith, h (env log c) log, Silent-poll fuel c ready h env ((c, env log c) ∷ log))

  pub Silent-bind :
      {A B : Type 0} (m : Io C A) (f : A → Io C B)
      → Silent view m
      → ((a : A) → Silent view (f a))
      → Silent view (m >>= f)
  Silent-bind {A} {B} m f hm hf env log = go (m env log) (hm env log)
    where
      go :
          (o : Outcome C A)
          → view (log_of o) ≡ view log
          → view (log_of (◌>>=◌ {C = C} {A = A} {B = B} (λ _ _. o) f env log)) ≡ view log
      go (done a l) h = hf a env l ∙ h
      go (exited l) h = h
      go (hung l) h = h
      go (faulted l) h = h

-- A partial-correctness triple: `I` holds of the log wherever the program is cut short, `Q` of the
-- result and the log where it returns.
abbrev pub Ensures : {C A : Type 0} → (Log C → Type 0) → (A → Log C → Type 0) → Outcome C A → Type 0
Ensures I Q (done a l) = Q a l
Ensures I Q (exited l) = I l
Ensures I Q (hung l) = I l
Ensures I Q (faulted l) = I l

-- A call keeps an invariant of the log.
abbrev pub Stable : {C : Type 0} → (Log C → Type 0) → C → Type 0
Stable {C} I c = (n : ℕ) (l : Log C) → I l → I ((c, n) ∷ l)

module _ {C : Type 0} (I : Log C → Type 0) where
  pub Ensures-bind :
      {A B : Type 0} (R : A → Log C → Type 0) (Q : B → Log C → Type 0) (m : Io C A) (f : A → Io C B)
      (env : Env C) (log : Log C)
      → Ensures I R (m env log)
      → ((a : A) (l : Log C) → R a l → Ensures I Q (f a env l))
      → Ensures I Q ((m >>= f) env log)
  Ensures-bind {A} {B} R Q m f env log hm hf = go (m env log) hm
    where
      go :
          (o : Outcome C A)
          → Ensures I R o
          → Ensures I Q (◌>>=◌ {C = C} {A = A} {B = B} (λ _ _. o) f env log)
      go (done a l) h = hf a l h
      go (exited l) h = h
      go (hung l) h = h
      go (faulted l) h = h

  pub Ensures-poll :
      (fuel : ℕ) (c : C) (ready : ℕ → Bool) (env : Env C) (log : Log C)
      → Stable I c
      → I log
      → Ensures I (λ a l. I l × (ready a ≡ true)) (poll fuel c ready env log)
  unfolding poll
  Ensures-poll zero c ready env log keep h = h
  Ensures-poll (suc fuel) c ready env log keep h = ground (
    arith,
    keep (env log c) log h,
    Ensures-poll fuel c ready env ((c, env log c) ∷ log) keep (keep (env log c) log h),
  )

module _ {C : Type 0} where
  -- Total correctness of a sequence.
  pub Returns-bind :
      {A B : Type 0} (R : A → Log C → Type 0) (Q : B → Log C → Type 0) (m : Io C A) (f : A → Io C B)
      (env : Env C) (log : Log C)
      → Returns (m env log) R
      → ((a : A) (l : Log C) → R a l → Returns (f a env l) Q)
      → Returns ((m >>= f) env log) Q
  Returns-bind {A} {B} R Q m f env log hm hf = go (m env log) hm
    where
      go :
          (o : Outcome C A)
          → Returns o R
          → Returns (◌>>=◌ {C = C} {A = A} {B = B} (λ _ _. o) f env log) Q
      go (done a l) h = hf a l h
      go (exited l) h = absurd h
      go (hung l) h = absurd h
      go (faulted l) h = absurd h

  pub Returns-mono :
      {A : Type 0} (P Q : A → Log C → Type 0) (o : Outcome C A)
      → ((a : A) (l : Log C) → P a l → Q a l)
      → Returns o P
      → Returns o Q
  Returns-mono P Q (done a l) h r = h a l r
  Returns-mono P Q (exited l) h r = r
  Returns-mono P Q (hung l) h r = r
  Returns-mono P Q (faulted l) h r = r

  -- A busy wait that finds its condition at once.
  pub Returns-poll :
      (fuel : ℕ) (c : C) (ready : ℕ → Bool) (env : Env C) (log : Log C)
      → ready (env log c) ≡ true
      → Returns (poll (suc fuel) c ready env log) (λ a l. l ≡ (c, env log c) ∷ log)
  unfolding poll
  Returns-poll fuel c ready env log h = rw h refl

  -- Total correctness from a program that returns and what it ensures where it does.
  pub Returns-Ensures :
      {A : Type 0} (I : Log C → Type 0) (Q R : A → Log C → Type 0) (o : Outcome C A)
      → Ensures I Q o
      → Returns o R
      → Returns o (λ a l. R a l × Q a l)
  Returns-Ensures I Q R (done a l) q r = (r, q)
  Returns-Ensures I Q R (exited l) q r = r
  Returns-Ensures I Q R (hung l) q r = r
  Returns-Ensures I Q R (faulted l) q r = r

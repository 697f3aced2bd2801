-- ===== src/Base/Count.antt =====
-- Sums over the first `n` members of a family that is changed at one index.
use mathlib.Core.Logic.{ite, ◌≢◌}
use native.Mathlib.Decide.{dec_lt, ℕ_discrete}
use Prim.Native.Nat.{ℕ, zero, suc, ◌+◌, ◌*◌, ◌≤◌, ◌<◌}
use mathlib.Core.Path.{◌≡◌, refl, subst}
use native.Mathlib.Omega.{arith}

abbrev pub update {ℓ} : {A : Type ℓ} → (ℕ → A) → ℕ → A → ℕ → A
update f i a j = ite (ℕ_discrete i j) a (f j)

module _ {ℓ} {A : Type ℓ} (f : ℕ → A) (i : ℕ) where
  pub update_same : (a : A) → update f i a i ≡ a
  update_same a = ground arith

  pub update_ne : (j : ℕ) (a : A) → j ≢ i → update f i a j ≡ f j
  update_ne j a h = ground arith

module _ {ℓ} {A : Type ℓ} (w : A → ℕ) where
  pub count : ℕ → (ℕ → A) → ℕ
  count zero f = 0
  count (suc n) f = count n f + w (f n)

  count-update_beyond :
      (n : ℕ) (f : ℕ → A) (i : ℕ) (a : A) → n ≤ i → count n (update f i a) ≡ count n f
  unfolding count
  count-update_beyond zero f i a h = refl
  count-update_beyond (suc n) f i a h = ground (arith, count-update_beyond n f i a)

  pub count-update :
      (n : ℕ) (f : ℕ → A) (i : ℕ) (a : A)
      → i < n
      → count n (update f i a) + w (f i) ≡ count n f + w a
  unfolding count
  count-update zero f i a h = absurd (omega arith)
  count-update (suc n) f i a h = elim (dec_lt i n) [
    | yes below ↦ ground (arith, count-update n f i a below)
    | no last ↦ ground (arith, count-update_beyond n f i a)
  ]

  -- One member counts no more than all.
  pub le-count : (n : ℕ) (f : ℕ → A) (i : ℕ) → i < n → w (f i) ≤ count n f
  unfolding count
  le-count zero f i h = absurd (omega arith)
  le-count (suc n) f i h = elim (dec_lt i n) [
    | yes below ↦ omega (arith, le-count n f i below)
    | no last ↦ ground arith
  ]

  -- Two members count no more than all.
  pub add-le-count : (n : ℕ) (f : ℕ → A) (i j : ℕ) → i < j → j < n → w (f i) + w (f j) ≤ count n f
  unfolding count
  add-le-count zero f i j h k = absurd (omega arith)
  add-le-count (suc n) f i j h k = elim (dec_lt j n) [
    | yes below ↦ omega (arith, add-le-count n f i j h below)
    | no last ↦ ground (arith, le-count n f i)
  ]

  pub count-eq-zero : (n : ℕ) (f : ℕ → A) → ((i : ℕ) → w (f i) ≡ 0) → count n f ≡ 0
  unfolding count
  count-eq-zero zero f h = refl
  count-eq-zero (suc n) f h = omega (arith, count-eq-zero n f h, h n)

  pub count-const : (c n : ℕ) (f : ℕ → A) → ((i : ℕ) → i < n → w (f i) ≡ c) → count n f ≡ n * c
  unfolding count
  count-const c zero f h = omega arith
  count-const c (suc n) f h =
      omega (arith, count-const c n f (λ i l. h i (omega arith)), h n (omega arith))

  -- A member that counts 0, where none counts more than 1.
  pub count-lt :
      ((a : A) → w a ≤ 1) → (n : ℕ) (f : ℕ → A) (i : ℕ) → i < n → w (f i) ≡ 0 → count n f < n
  unfolding count
  count-lt h zero f i l e = absurd (omega arith)
  count-lt h (suc n) f i l e = elim (dec_lt i n) [
    | yes below ↦ omega (arith, count-lt h n f i below e, h (f n))
    | no last ↦
        let same : i ≡ n = omega arith in
        omega (arith, count-le n f h, subst (λ k. w (f k) ≡ 0) same e)
  ]
    where
      count-le : (n : ℕ) (f : ℕ → A) → ((a : A) → w a ≤ 1) → count n f ≤ n
      count-le zero f h = omega arith
      count-le (suc n) f h = omega (arith, count-le n f h, h (f n))

  -- A sum above zero has a member above zero.
  pub count_pos : (n : ℕ) (f : ℕ → A) → 0 < count n f → (i : ℕ) × (i < n) × (0 < w (f i))
  unfolding count
  count_pos zero f h = absurd (omega arith)
  count_pos (suc n) f h = elim (dec_lt 0 (w (f n))) [
    | yes here ↦ (n, omega arith, here)
    | no there ↦ let (i, lt, q) = count_pos n f (omega arith) in (i, omega arith, q)
  ]

pub count-le-count {ℓ} :
    {A : Type ℓ} (v w : A → ℕ)
    → ((a : A) → v a ≤ w a)
    → (n : ℕ) (f : ℕ → A) → count v n f ≤ count w n f
unfolding count
count-le-count v w h zero f = omega arith
count-le-count v w h (suc n) f = omega (arith, count-le-count v w h n f, h (f n))

-- ===== src/Base/Slices.antt =====
-- What is taken from a list or dropped in front of it.
use Prim.Native.Nat.{ℕ, zero, suc, ◌+◌, ◌-◌, ◌≤◌, min}
use mathlib.Core.Path.{◌≡◌, refl, ap, sym, ◌∙◌}
use mathlib.Core.List.{List, [], ◌∷◌, ◌++◌}
use native.Mathlib.Omega.{arith}
use mzntapp_cpp.Base.Lists.{length, take, drop}

module _ {ℓ} {A : Type ℓ} where
  -- Dropping more than the first part.
  pub drop-append : (m n : ℕ) (xs ys : List A) → m ≡ length xs + n → drop m (xs ++ ys) ≡ drop n ys
  drop-append m n [] ys h = ap (λ k. drop k ys) (omega (arith, h))
  drop-append zero n (x ∷ xs) ys h = absurd (omega arith)
  drop-append (suc m) n (x ∷ xs) ys h = drop-append m n xs ys (omega arith)

  pub drop-nil : (n : ℕ) → drop {A = A} n [] ≡ []
  drop-nil zero = refl
  drop-nil (suc n) = refl

  pub take-nil : (n : ℕ) → take {A = A} n [] ≡ []
  take-nil zero = refl
  take-nil (suc n) = refl

  pub drop-append_short :
      (n : ℕ) (xs ys : List A) → n ≤ length xs → drop n (xs ++ ys) ≡ drop n xs ++ ys
  drop-append_short zero xs ys h = refl
  drop-append_short (suc n) [] ys h = absurd (omega arith)
  drop-append_short (suc n) (x ∷ xs) ys h = drop-append_short n xs ys (omega arith)

  pub drop-all : (n : ℕ) (xs : List A) → length xs ≤ n → drop n xs ≡ []
  drop-all zero [] h = refl
  drop-all zero (x ∷ xs) h = absurd (omega arith)
  drop-all (suc n) [] h = refl
  drop-all (suc n) (x ∷ xs) h = drop-all n xs (omega arith)

  pub take-all : (n : ℕ) (xs : List A) → length xs ≤ n → take n xs ≡ xs
  take-all zero [] h = refl
  take-all zero (x ∷ xs) h = absurd (omega arith)
  take-all (suc n) [] h = refl
  take-all (suc n) (x ∷ xs) h = ap (◌∷◌ x) (take-all n xs (omega arith))

  pub take-append_short : (n : ℕ) (xs ys : List A) → n ≤ length xs → take n (xs ++ ys) ≡ take n xs
  take-append_short zero xs ys h = refl
  take-append_short (suc n) [] ys h = absurd (omega arith)
  take-append_short (suc n) (x ∷ xs) ys h = ap (◌∷◌ x) (take-append_short n xs ys (omega arith))

  pub length-drop : (n : ℕ) (xs : List A) → length (drop n xs) ≡ length xs - n
  length-drop zero xs = omega arith
  length-drop (suc n) [] = omega arith
  length-drop (suc n) (x ∷ xs) = omega (arith, length-drop n xs)

  pub drop-take : (a b m : ℕ) (xs : List A) → m ≡ a + b → drop a (take m xs) ≡ take b (drop a xs)
  drop-take zero b m xs h = ap (λ k. take k xs) (omega (arith, h))
  drop-take (suc a) b zero xs h = absurd (omega arith)
  drop-take (suc a) b (suc m) [] h = sym (take-nil b)
  drop-take (suc a) b (suc m) (x ∷ xs) h = drop-take a b m xs (omega arith)

  pub drop-drop : (a n : ℕ) (xs : List A) → drop a (drop n xs) ≡ drop (n + a) xs
  drop-drop a zero xs = let e : a ≡ zero + a = omega arith in ap (λ k. drop k xs) e
  drop-drop a (suc n) [] = drop-nil a ∙ sym (drop-nil (suc n + a))
  drop-drop a (suc n) (x ∷ xs) =
      let e : suc (n + a) ≡ suc n + a = omega arith in
      drop-drop a n xs ∙ ap (λ k. drop k (x ∷ xs)) e

  pub take-append-drop : (n : ℕ) (xs : List A) → take n xs ++ drop n xs ≡ xs
  take-append-drop zero xs = refl
  take-append-drop (suc n) [] = refl
  take-append-drop (suc n) (x ∷ xs) = ap (◌∷◌ x) (take-append-drop n xs)

  pub length-take : (n : ℕ) (xs : List A) → length (take n xs) ≡ min n (length xs)
  length-take zero xs = omega arith
  length-take (suc n) [] = omega arith
  length-take (suc n) (x ∷ xs) = omega (arith, length-take n xs)

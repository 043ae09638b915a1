-- ===== src/Base/Lists.antt =====
-- Lists measured and filtered by native numbers and Boolean tests.
use Prim.Native.Nat.{ℕ, zero, suc, ◌+◌, ◌≤◌}
use mathlib.Core.Path.{◌≡◌, refl, sym, subst}
use mathlib.Core.Bool.{Bool, true, false}
use mathlib.Core.List.{List, [], ◌∷◌, ◌++◌, Memᴰ}
use native.Mathlib.Omega.{arith}
use clean_arch_go_gin.Base.Tests.{if◌then◌else◌}

module _ {ℓ} {A : Type ℓ} where
  abbrev pub length : List A → ℕ
  length [] = 0
  length (x ∷ xs) = suc (length xs)

  -- The elements that pass a Boolean test.
  abbrev pub select : (A → Bool) → List A → List A
  select p [] = []
  select p (x ∷ xs) = if p x then x ∷ select p xs else select p xs

  -- The elements that fail it.
  abbrev pub reject : (A → Bool) → List A → List A
  reject p [] = []
  reject p (x ∷ xs) = if p x then reject p xs else x ∷ reject p xs

  abbrev pub take : ℕ → List A → List A
  take zero xs = []
  take (suc n) [] = []
  take (suc n) (x ∷ xs) = x ∷ take n xs

  abbrev pub drop : ℕ → List A → List A
  drop zero xs = xs
  drop (suc n) [] = []
  drop (suc n) (x ∷ xs) = drop n xs

  pub length-append : (xs ys : List A) → length (xs ++ ys) ≡ length xs + length ys
  length-append [] ys = omega arith
  length-append (x ∷ xs) ys = omega (arith, length-append xs ys)

  pub length-take-le : (n : ℕ) (xs : List A) → length (take n xs) ≤ n
  length-take-le zero xs = omega arith
  length-take-le (suc n) [] = omega arith
  length-take-le (suc n) (x ∷ xs) = omega (arith, length-take-le n xs)

  pub length-select-reject :
      (p : A → Bool) (xs : List A) → length (select p xs) + length (reject p xs) ≡ length xs
  length-select-reject p [] = omega arith
  length-select-reject p (x ∷ xs) = ground (arith, length-select-reject p xs)

  -- What one test keeps and another drops, in whichever order they are made.
  pub select-reject_comm :
      (p q : A → Bool) (xs : List A) → select p (reject q xs) ≡ reject q (select p xs)
  select-reject_comm p q [] = refl
  select-reject_comm p q (x ∷ xs) = ground (arith, select-reject_comm p q xs)

  pub select-append :
      (p : A → Bool) (xs ys : List A) → select p (xs ++ ys) ≡ select p xs ++ select p ys
  select-append p [] ys = refl
  select-append p (x ∷ xs) ys = ground (arith, select-append p xs ys)

  -- The elements that `q` drops are none of those that `p` keeps.
  pub select-reject_disjoint :
      (p q : A → Bool) (xs : List A)
      → ((x : A) → p x ≡ true → q x ≡ false)
      → select p (reject q xs) ≡ select p xs
  select-reject_disjoint p q [] h = refl
  select-reject_disjoint p q (x ∷ xs) h = ground (arith, h x, select-reject_disjoint p q xs h)

  pub select-reject_self : (p : A → Bool) (xs : List A) → select p (reject p xs) ≡ []
  select-reject_self p [] = refl
  select-reject_self p (x ∷ xs) = ground (arith, select-reject_self p xs)

  pub reject-reject_self : (p : A → Bool) (xs : List A) → reject p (reject p xs) ≡ reject p xs
  reject-reject_self p [] = refl
  reject-reject_self p (x ∷ xs) = ground (arith, reject-reject_self p xs)

  pub reject-append :
      (p : A → Bool) (xs ys : List A) → reject p (xs ++ ys) ≡ reject p xs ++ reject p ys
  reject-append p [] ys = refl
  reject-append p (x ∷ xs) ys = ground (arith, reject-append p xs ys)

module _ {ℓ κ} {A : Type ℓ} (P : A → Type κ) where
  abbrev pub All : List A → Type κ
  All [] = Unit
  All (x ∷ xs) = P x × All xs

  pub All-Memᴰ : {x : A} {xs : List A} → Memᴰ x xs → All xs → P x
  All-Memᴰ (Memᴰ.head e) h = subst P (sym e) h.0
  All-Memᴰ (Memᴰ.tail m) h = All-Memᴰ m h.1

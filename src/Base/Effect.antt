-- ===== src/Base/Effect.antt =====
-- The effects of the services and repositories: a call runs in a world, ends with a value or an
-- error, and leaves a world behind, after an error too. The error type and the world are arguments.
use mathlib.Core.Path.{◌≡◌, refl, sym, ◌∙◌}
use mathlib.Core.Logic.{◌⊎◌, inl, inr}

pub data Result (E A : Type 0) : Type 0 where
  ok : A → Result E A
  err : E → Result E A

abbrev pub M : Type 0 → Type 0 → Type 0 → Type 0
M W E A = W → Result E A × W

module _ {W E : Type 0} where
  abbrev pub pure : {A : Type 0} → A → M W E A
  pure a w = (ok a, w)

  abbrev pub raise : {A : Type 0} → E → M W E A
  raise e w = (err e, w)

  -- A call whose error the caller inspects itself.
  abbrev pub attempt : {A : Type 0} → M W E A → M W E (Result E A)
  attempt m w = let (r, w') = m w in (ok r, w')

module _ {W E A : Type 0} where
  -- What `m >>= f` does with the outcome of `m`. It is shut, so that a proof sees the steps.
  unfoldable pub continue : {B : Type 0} → (A → M W E B) → Result E A × W → Result E B × W
  continue f (ok a, w) = f a w
  continue f (err e, w) = (err e, w)

  -- `if err != nil { return …, g(err) }` after a call.
  unfoldable pub rename : (E → E) → Result E A × W → Result E A × W
  rename g (ok a, w) = (ok a, w)
  rename g (err e, w) = (err (g e), w)

module _ {W E : Type 0} where
  infixl 5 ◌>>=◌ ◌>>◌
  abbrev pub ◌>>=◌ : {A B : Type 0} → M W E A → (A → M W E B) → M W E B
  ◌>>=◌ m f w = continue f (m w)

  abbrev pub ◌>>◌ : {A B : Type 0} → M W E A → M W E B → M W E B
  m >> k = m >>= λ _. k

  abbrev pub map_err : {A : Type 0} → (E → E) → M W E A → M W E A
  map_err g m w = rename g (m w)

-- To split on a result and keep the equation.
pub Result-cases :
    {E A : Type 0} (r : Result E A) → ((a : A) × (r ≡ ok a)) ⊎ ((e : E) × (r ≡ err e))
Result-cases (ok a) = inl (a, refl)
Result-cases (err e) = inr (e, refl)

-- How a call may end: with a value and a world that satisfy `P`, or with an error and a world
-- that satisfy `Q`.
pub data Returns {W E A : Type 0} (P : A → W → Type 0) (Q : E → W → Type 0)
    : Result E A × W → Type 0 where
  returned : {a : A} {w : W} → P a w → Returns P Q (ok a, w)
  failed : {e : E} {w : W} → Q e w → Returns P Q (err e, w)

module _ {W E A : Type 0} where
  -- The postcondition of an outcome.
  abbrev pub Post : (A → W → Type 0) → (E → W → Type 0) → Result E A × W → Type 0
  Post P Q (ok a, w) = P a w
  Post P Q (err e, w) = Q e w

  pub Returns-Post :
      {P : A → W → Type 0} {Q : E → W → Type 0} {r : Result E A × W} → Returns P Q r → Post P Q r
  Returns-Post (returned p) = p
  Returns-Post (failed q) = q

  pub Post-Returns :
      {P : A → W → Type 0} {Q : E → W → Type 0} (r : Result E A × W) → Post P Q r → Returns P Q r
  Post-Returns (ok a, w) p = returned p
  Post-Returns (err e, w) q = failed q

  -- To split on an outcome and keep the equation.
  pub outcome-cases :
      (r : Result E A × W)
      → ((a : A) × (w : W) × (r ≡ (ok a, w))) ⊎ ((e : E) × (w : W) × (r ≡ (err e, w)))
  outcome-cases (ok a, w) = inl (a, w, refl)
  outcome-cases (err e, w) = inr (e, w, refl)

  pub continue-Returns :
      {B : Type 0} {P : A → W → Type 0} {Q : E → W → Type 0} {P' : B → W → Type 0}
      {Q' : E → W → Type 0} {f : A → M W E B} {r : Result E A × W}
      → Returns P Q r
      → ((a : A) (w : W) → P a w → Returns P' Q' (f a w))
      → ((e : E) (w : W) → Q e w → Q' e w)
      → Returns P' Q' (continue f r)
  unfolding continue
  continue-Returns (returned p) good bad = good _ _ p
  continue-Returns (failed q) good bad = failed (bad _ _ q)

  -- The same where what follows relies on how the call ended, and so on the world that it left.
  pub continue-traced :
      {B : Type 0} {P : A → W → Type 0} {Q : E → W → Type 0} {P' : B → W → Type 0}
      {Q' : E → W → Type 0} {f : A → M W E B} {r : Result E A × W}
      → Returns P Q r
      → ((a : A) (w : W) → r ≡ (ok a, w) → P a w → Returns P' Q' (f a w))
      → ((e : E) (w : W) → r ≡ (err e, w) → Q e w → Q' e w)
      → Returns P' Q' (continue f r)
  unfolding continue
  continue-traced (returned p) good bad = good _ _ refl p
  continue-traced (failed q) good bad = failed (bad _ _ refl q)

  rename-world : (g : E → E) (r : Result E A × W) → (rename g r).1 ≡ r.1
  unfolding rename
  rename-world g (ok a, w) = refl
  rename-world g (err e, w) = refl

  -- The world that a call which succeeded has left.
  pub left_by : {a : A} {r : Result E A × W} {w : W} → r ≡ (ok a, w) → w ≡ r.1
  left_by at i = (sym at i).1

  pub renamed : {a : A} {w : W} (g : E → E) (r : Result E A × W) → rename g r ≡ (ok a, w) → w ≡ r.1
  renamed g r at = left_by at ∙ rename-world g r

  pub rename-Returns :
      {P : A → W → Type 0} {Q : E → W → Type 0} {P' : A → W → Type 0} {Q' : E → W → Type 0}
      (g : E → E) {r : Result E A × W}
      → Returns P Q r
      → ((a : A) (w : W) → P a w → P' a w)
      → ((e : E) (w : W) → Q e w → Q' (g e) w)
      → Returns P' Q' (rename g r)
  unfolding rename
  rename-Returns g (returned p) good bad = returned (good _ _ p)
  rename-Returns g (failed q) good bad = failed (bad _ _ q)

  -- Where the postcondition of a failure says nothing of the error.
  pub rename-same :
      {P : A → W → Type 0} {Q : W → Type 0} (g : E → E) {r : Result E A × W}
      → Returns P (λ _ w. Q w) r
      → Returns P (λ _ w. Q w) (rename g r)
  unfolding rename
  rename-same g (returned p) = returned p
  rename-same g (failed q) = failed q

  pub Returns-mono :
      {P : A → W → Type 0} {Q : E → W → Type 0} {P' : A → W → Type 0} {Q' : E → W → Type 0}
      {r : Result E A × W}
      → Returns P Q r
      → ((a : A) (w : W) → P a w → P' a w)
      → ((e : E) (w : W) → Q e w → Q' e w)
      → Returns P' Q' r
  Returns-mono (returned p) good bad = returned (good _ _ p)
  Returns-mono (failed q) good bad = failed (bad _ _ q)

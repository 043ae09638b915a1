-- ===== src/Platform/Migrate/Order.antt =====
-- The check of the list of migrations accepts exactly the lists that ascend.
use clean_arch_go_gin.Base.{
  suc, ◌≡◌, refl, sym, ap, ◌∙◌, subst, ◌↔◌, Option, none, some, List, [], ◌∷◌, All, inl, inr,
  Option-cases, Bool-cases, length, arith,
}
use clean_arch_go_gin.Base.Int.{ℤ, pos, ltb_ℤ, ◌≤ℤ◌, ◌<ℤ◌, eq_of_parts}
use clean_arch_go_gin.Base.Effect.{ok}
use clean_arch_go_gin.Platform.Migrate.{Migration, insert, sort, check, validate_migrations}

abbrev Above : ℤ → List ℤ → Type 0
Above v = All (λ w. v ≤ℤ w)

-- No number stands below an earlier one.
abbrev Climbs : List ℤ → Type 0
Climbs [] = Unit
Climbs (v ∷ vs) = Above v vs × Climbs vs

Above-mono : (u v : ℤ) (ws : List ℤ) → u ≤ℤ v → Above v ws → Above u ws
Above-mono u v [] h _ = tt
Above-mono u v (w ∷ ws) h (a, more) = (omega (arith, h, a), Above-mono u v ws h more)

module _ {W : Type 0} where
  abbrev pub IsGiven : Option W → Type 0
  IsGiven none = ⊥
  IsGiven (some _) = Unit

module _ {W : Type 0} where
  -- Every version is above the one before, and above `low`; every `Up` is there.
  abbrev pub Ascends : ℤ → List (Migration W) → Type 0
  Ascends low [] = Unit
  Ascends low (m ∷ ms) = (low <ℤ m.version) × IsGiven m.up × Ascends m.version ms

  abbrev versions : List (Migration W) → List ℤ
  versions [] = []
  versions (m ∷ ms) = m.version ∷ versions ms

  insert-Above :
      (v : ℤ) (m : Migration W) (ms : List (Migration W))
      → v ≤ℤ m.version
      → Above v (versions ms)
      → Above v (versions (insert m ms))
  unfolding insert
  insert-Above v m [] h _ = (h, tt)
  insert-Above v m (n ∷ ns) h (a, more) = ground (arith, h, a, more, insert-Above v m ns h more)

  insert-Climbs :
      (m : Migration W) (ms : List (Migration W))
      → Climbs (versions ms)
      → Climbs (versions (insert m ms))
  unfolding insert
  insert-Climbs m [] _ = (tt, tt)
  insert-Climbs m (n ∷ ns) (a, more) = elim (Bool-cases (ltb_ℤ n.version m.version)) [
    | inl below ↦
        rw below (insert-Above n.version m ns (ground (arith, below)) a, insert-Climbs m ns more)
    | inr above ↦
        let low : m.version ≤ℤ n.version = ground (arith, above) in
        rw above ((low, Above-mono m.version n.version (versions ns) low a), (a, more))
  ]

  sort-Climbs : (ms : List (Migration W)) → Climbs (versions (sort ms))
  unfolding sort
  sort-Climbs [] = tt
  sort-Climbs (m ∷ ms) = insert-Climbs m (sort ms) (sort-Climbs ms)

  -- A list that climbs is sorted.
  insert-id :
      (m : Migration W) (ms : List (Migration W))
      → Climbs (versions (m ∷ ms))
      → insert m ms ≡ m ∷ ms
  unfolding insert
  insert-id m [] _ = refl
  insert-id m (n ∷ ns) h = ground (arith, h)

  sort-id : (ms : List (Migration W)) → Climbs (versions ms) → sort ms ≡ ms
  unfolding sort
  sort-id [] _ = refl
  sort-id (m ∷ ms) h = rw (sort-id ms h.1) (insert-id m ms h)

  length-insert :
      (m : Migration W) (ms : List (Migration W)) → length (insert m ms) ≡ suc (length ms)
  unfolding insert
  length-insert m [] = refl
  length-insert m (n ∷ ns) = ground (arith, length-insert m ns)

  length-sort : (ms : List (Migration W)) → length (sort ms) ≡ length ms
  unfolding sort
  length-sort [] = refl
  length-sort (m ∷ ms) = length-insert m (sort ms) ∙ ap suc (length-sort ms)

  -- What the loop has compared.
  check-versions :
      (before : Option (Migration W)) (xs ms : List (Migration W))
      → length xs ≡ length ms
      → check before xs ms ≡ ok tt
      → versions xs ≡ versions ms
  unfolding check
  check-versions before [] [] _ _ = refl
  check-versions before [] (m ∷ ms) l _ = absurd (omega (arith, l))
  check-versions before (x ∷ xs) [] l _ = absurd (omega (arith, l))
  check-versions before (x ∷ xs) (m ∷ ms) l e =
      ground (arith, l, e, check-versions (some m) xs ms, eq_of_parts x.version m.version)

  -- The version before the rest of a list, or 0.
  abbrev floor : Option (Migration W) → ℤ
  floor none = pos 0
  floor (some before) = before.version

  check-IsGiven :
      (before : Option (Migration W)) (m : Migration W) (ms : List (Migration W))
      → check before (m ∷ ms) (m ∷ ms) ≡ ok tt
      → IsGiven m.up
  unfolding check
  check-IsGiven before m ms e = elim (Option-cases m.up) [
    | inl missing ↦ absurd (ground (arith, e, missing))
    | inr (up, here) ↦ rw here tt
  ]

  check-Ascends :
      (before : Option (Migration W)) (ms : List (Migration W))
      → Above (floor before) (versions ms)
      → Climbs (versions ms)
      → check before ms ms ≡ ok tt
      → Ascends (floor before) ms
  unfolding check
  check-Ascends before [] _ _ _ = tt
  check-Ascends none (m ∷ ms) h (c, more) e = (
    ground (arith, e),
    check-IsGiven none m ms e,
    check-Ascends (some m) ms c more (ground (arith, e)),
  )
  check-Ascends (some before) (m ∷ ms) h (c, more) e = (
    ground (arith, e, h.0),
    check-IsGiven (some before) m ms e,
    check-Ascends (some m) ms c more (ground (arith, e)),
  )

  check-Above :
      (before : Option (Migration W)) (ms : List (Migration W))
      → check before ms ms ≡ ok tt
      → Above (pos 0) (versions ms)
  unfolding check
  check-Above before [] _ = tt
  check-Above before (m ∷ ms) e =
      (ground (arith, e), check-Above (some m) ms (ground (arith, e, check-IsGiven before m ms e)))

  Ascends-check :
      (before : Option (Migration W)) (ms : List (Migration W))
      → pos 0 ≤ℤ floor before
      → Ascends (floor before) ms
      → check before ms ms ≡ ok tt
  unfolding check
  Ascends-check before [] _ _ = refl
  Ascends-check none (m ∷ ms) h (low, given, more) =
      ground (arith, low, given, Ascends-check (some m) ms (omega (arith, low)) more)
  Ascends-check (some before) (m ∷ ms) h (low, given, more) =
      ground (arith, h, low, given, Ascends-check (some m) ms (omega (arith, h, low)) more)

  Ascends-Above : (low : ℤ) (ms : List (Migration W)) → Ascends low ms → Above low (versions ms)
  Ascends-Above low [] _ = tt
  Ascends-Above low (m ∷ ms) (h, _, more) = (
    omega (arith, h),
    Above-mono low m.version _ (omega (arith, h)) (Ascends-Above m.version ms more),
  )

  Ascends-Climbs : (low : ℤ) (ms : List (Migration W)) → Ascends low ms → Climbs (versions ms)
  Ascends-Climbs low [] _ = tt
  Ascends-Climbs low (m ∷ ms) (_, _, more) =
      (Ascends-Above m.version ms more, Ascends-Climbs m.version ms more)

  -- The list is accepted just when its versions are positive and ascend strictly as it is written,
  -- and every migration has its `Up`.
  pub validate_migrations-Ascends :
      (list : List (Migration W)) → (validate_migrations list ≡ ok tt) ↔ Ascends (pos 0) list
  unfolding validate_migrations
  validate_migrations-Ascends list = (
    λ e.
        let same = check-versions none list (sort list) (sym (length-sort list)) e in
        let climbs : Climbs (versions list) = subst Climbs (sym same) (sort-Climbs list) in
        let passed = subst (λ ms. check none list ms ≡ ok tt) (sort-id list climbs) e in
        check-Ascends none list (check-Above none list passed) climbs passed,
    λ h.
        subst (λ ms. check none list ms ≡ ok tt)
          (sym (sort-id list (Ascends-Climbs (pos 0) list h)))
          (Ascends-check none list (omega arith) h),
  )

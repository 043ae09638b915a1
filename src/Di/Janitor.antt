-- ===== src/Di/Janitor.antt =====
-- `StartJanitor` and `purgeExpiredRefreshTokens`. The context of the process carries no transaction;
-- whether it is done is asked of the world by the purge itself.
use clean_arch_go_gin.Base.{
  ℕ, ◌≡◌, refl, true, false, none, List, [], ◌∷◌, Bool-cases, inl, inr, ◌⊎◌, if◌then◌else◌,
}
use clean_arch_go_gin.Base.Int.{ℤ, pos, leb_ℤ}
use clean_arch_go_gin.Base.Effect.{Result, ok, err, returned, failed}
use clean_arch_go_gin.Apperr.{Error}
use clean_arch_go_gin.Outside.{Outside}
use clean_arch_go_gin.Outside.Laws.{Laws, Writes}
use clean_arch_go_gin.Repository.Context.{Context}
use clean_arch_go_gin.Service.User.Tokens.{UserService, purge_expired_refresh_tokens}
use clean_arch_go_gin.Service.User.Tokens.Laws.{asked_at}
use clean_arch_go_gin.Service.User.Session.Listing.{IsPurged, purge_expired_refresh_tokens-purges}

-- What the `select` of the loop receives.
pub data Wake : Type 0 where
  done tick : Wake

abbrev background : Context
background = record { transaction = none }

module _ (o : Outside) (s : UserService) where
  open o use {World, views}

  -- `purgeExpiredRefreshTokens`: the outcome is only logged.
  abbrev pub sweep : World → World
  sweep w = (purge_expired_refresh_tokens o s background w).1

  -- The goroutine, for what it receives one after the other; at the end of the list it waits.
  unfoldable pub janitor_loop : List Wake → World → World
  janitor_loop [] w = sweep w
  janitor_loop (Wake.done ∷ rest) w = sweep w
  janitor_loop (Wake.tick ∷ rest) w = janitor_loop rest (sweep w)

  unfoldable pub start_janitor : ℤ → List Wake → World → World
  unfolding janitor_loop
  start_janitor interval wakes w = if leb_ℤ interval (pos 0) then w else janitor_loop wakes w

  -- The sweeps that the loop has begun.
  abbrev pub sweeps : List Wake → ℕ
  sweeps [] = 1
  sweeps (Wake.done ∷ rest) = 1
  sweeps (Wake.tick ∷ rest) = ℕ.suc (sweeps rest)

module _ (o : Outside) (s : UserService) where
  abbrev purge : o.World → Result Error ℕ × o.World
  purge = purge_expired_refresh_tokens o s background

  -- The world that so many purges leave one after the other, each of which has purged at the time
  -- of its start, or has failed and changed nothing.
  pub data Swept : ℕ → o.World → o.World → Type 0 where
    untouched : {w : o.World} → Swept 0 w w
    purged :
        {n k : ℕ} {w w₁ w' : o.World}
        → purge w ≡ (ok k, w₁)
        → IsPurged (asked_at o w) k (o.views w).committed.tokens (o.views w₁).committed.tokens
        → Swept n w₁ w'
        → Swept (ℕ.suc n) w w'
    lost :
        {n : ℕ} {e : Error} {w w₁ w' : o.World}
        → purge w ≡ (err e, w₁)
        → o.views w₁ ≡ o.views w
        → Swept n w₁ w'
        → Swept (ℕ.suc n) w w'

module _ (o : Outside) (l : Laws o) (s : UserService) where
  open o use {World, views}

  Swept-outcome :
      (n : ℕ) (w w' : World) (r : Result Error ℕ × World)
      → purge o s w ≡ r
      → Writes o
          (λ k v'. IsPurged (asked_at o w) k (views w).committed.tokens v'.committed.tokens)
          (views w)
          r
      → Swept o s n r.1 w'
      → Swept o s (ℕ.suc n) w w'
  Swept-outcome n w w' (ok k, w₁) ends (returned p) h = purged ends p h
  Swept-outcome n w w' (err e, w₁) ends (failed q) h = lost ends q h

  -- One sweep before others.
  sweep-Swept : (n : ℕ) (w w' : World) → Swept o s n (sweep o s w) w' → Swept o s (ℕ.suc n) w w'
  sweep-Swept n w w' h =
      Swept-outcome n w w' (purge o s w) refl
        (purge_expired_refresh_tokens-purges o l s background w refl) h

  janitor_loop-Swept :
      (wakes : List Wake) (w : World) → Swept o s (sweeps o s wakes) w (janitor_loop o s wakes w)
  unfolding janitor_loop
  janitor_loop-Swept [] w = sweep-Swept 0 w _ untouched
  janitor_loop-Swept (Wake.done ∷ rest) w = sweep-Swept 0 w _ untouched
  janitor_loop-Swept (Wake.tick ∷ rest) w =
      sweep-Swept (sweeps o s rest) w _ (janitor_loop-Swept rest (sweep o s w))

  -- The janitor purges once at its start and once for every tick before the context is done, and
  -- nothing else happens to the world; each purge that succeeds leaves no session that had expired
  -- when it started and keeps those that were active, and one that fails changes no session. With
  -- an interval that is not positive the janitor leaves the world alone.
  pub start_janitor-Swept :
      (interval : ℤ) (wakes : List Wake) (w : World)
      → ((leb_ℤ interval (pos 0) ≡ true) × (start_janitor o s interval wakes w ≡ w))
        ⊎ ((leb_ℤ interval (pos 0) ≡ false)
            × Swept o s (sweeps o s wakes) w (start_janitor o s interval wakes w))
  unfolding start_janitor
  start_janitor-Swept interval wakes w = elim (Bool-cases (leb_ℤ interval (pos 0))) [
    | inl off ↦ inl (off, rw off refl)
    | inr on ↦ inr (on, rw on (janitor_loop-Swept wakes w))
  ]

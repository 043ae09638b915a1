-- ===== src/Service/Token/Laws.antt =====
-- What the generated tokens hold, and what validation accepts.
use clean_arch_go_gin.Base.{ℕ, String, ◌≡◌, ◌∙◌, refl, Bool-cases, inl, inr, str_eq}
use clean_arch_go_gin.Base.Effect.{
  Result, ok, err, returned, failed, continue-Returns, Returns-mono,
}
use clean_arch_go_gin.Apperr.{Error}
use clean_arch_go_gin.Database.{Views}
use clean_arch_go_gin.Outside.{Outside}
use clean_arch_go_gin.Outside.Laws.{Laws, Answers}
use clean_arch_go_gin.Service.Token.Claims.{TokenClaims}
use clean_arch_go_gin.Service.Token.{
  TokenConfig, lift, generate_access_token, generate_refresh_token, validate, key_for,
  validate_refresh_token,
}

module _ (o : Outside) where
  open o use {World, views, sign}

  -- A token that carries a user's claims, signed with the access secret.
  abbrev pub IsAccessTokenFor : TokenConfig → ℕ → String → String → String → Type 0
  IsAccessTokenFor config user_id email name token =
      (c : TokenClaims) × (sign config.access_token_secret c ≡ ok token)
      × (c.user_id ≡ user_id)
      × (c.email ≡ email)
      × (c.name ≡ name)

  -- A token that names a user and nothing else of them, signed with the refresh secret.
  abbrev pub IsRefreshTokenFor : TokenConfig → ℕ → String → Type 0
  IsRefreshTokenFor config user_id token =
      (c : TokenClaims) × (sign config.refresh_token_secret c ≡ ok token)
      × (c.user_id ≡ user_id)
      × (c.email ≡ "")
      × (c.name ≡ "")

  pub lift-Answers :
      {A : Type 0} (f : World → A × World) (w : World) (v : Views)
      → views (f w).1 ≡ v
      → Answers o (λ a. a ≡ (f w).0) (λ _. Unit {0}) v (lift o f w)
  lift-Answers f w v e = returned (e, refl)

  outcome-Answers :
      {A : Type 0} (r : Result Error A) (w : World) (v : Views)
      → views w ≡ v
      → Answers o (λ a. r ≡ ok a) (λ _. Unit {0}) v (r, w)
  outcome-Answers (ok a) w v e = returned (e, refl)
  outcome-Answers (err x) w v e = failed (e, tt)

  module _ (l : Laws o) (config : TokenConfig) (w : World) (v : Views) (e : views w ≡ v) where
    pub generate_access_token-Answers :
        (user_id : ℕ) (email name : String)
        → Answers o
            (IsAccessTokenFor config user_id email name)
            (λ _. Unit {0})
            v
            (generate_access_token o config user_id email name w)
    unfolding generate_access_token
    generate_access_token-Answers user_id email name =
        continue-Returns (lift-Answers o.now w v (l.now_law w ∙ e))
          (λ base w₁ p.
            continue-Returns (lift-Answers o.now w₁ v (l.now_law w₁ ∙ p.0))
              (λ issued w₂ q.
                Returns-mono (outcome-Answers _ w₂ v q.0)
                  (λ _ _ r. (r.0, (_, r.1, refl, refl, refl))) (λ _ _ r. r))
              (λ _ _ q. q))
          (λ _ _ q. q)

    pub generate_refresh_token-Answers :
        (user_id : ℕ)
        → Answers o
            (IsRefreshTokenFor config user_id)
            (λ _. Unit {0})
            v
            (generate_refresh_token o config user_id w)
    unfolding generate_refresh_token
    generate_refresh_token-Answers user_id =
        continue-Returns (lift-Answers o.now w v (l.now_law w ∙ e))
          (λ now w₁ p.
            continue-Returns (lift-Answers o.new_uuid w₁ v (l.new_uuid_law w₁ ∙ p.0))
              (λ id w₂ q.
                Returns-mono (outcome-Answers _ w₂ v q.0)
                  (λ _ _ r. (r.0, (_, r.1, refl, refl, refl))) (λ _ _ r. r))
              (λ _ _ q. q))
          (λ _ _ q. q)

  -- The claims that validation of a refresh token returns in some world.
  abbrev pub Verified : TokenConfig → String → TokenClaims → Type 0
  Verified config token c = (w : World) × ((validate_refresh_token o config token w).0 ≡ ok c)

  tagged :
      {A : Type 0} {v : Views} {r : Result Error A × World}
      → Answers o (λ _. Unit {0}) (λ _. Unit {0}) v r
      → Answers o (λ a. r.0 ≡ ok a) (λ _. Unit {0}) v r
  tagged (returned p) = returned (p.0, refl)
  tagged (failed q) = failed q

  module _ (l : Laws o) (config : TokenConfig) (w : World) (v : Views) (e : views w ≡ v) where
    validate-Answers :
        (secret token : String)
        → Answers o (λ _. Unit {0}) (λ _. Unit {0}) v (validate o config secret token w)
    validate-Answers secret token = elim (Bool-cases (str_eq token "")) [
      | inl h ↦ rw h (failed (e, tt))
      | inr h ↦ rw h (l.parse_with_claims_law token (key_for o config secret) w v e)
    ]

    pub validate_refresh_token-Answers :
        (token : String)
        → Answers o
            (Verified config token)
            (λ _. Unit {0})
            v
            (validate_refresh_token o config token w)
    unfolding validate_refresh_token
    validate_refresh_token-Answers token =
        Returns-mono (tagged (validate-Answers config.refresh_token_secret token))
          (λ _ _ q. (q.0, (w, q.1))) (λ _ _ q. q)

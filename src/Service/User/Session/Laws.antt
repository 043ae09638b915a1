-- ===== src/Service/User/Session/Laws.antt =====
-- What a refresh does to the stored tokens, and what the list of sessions shows.
use clean_arch_go_gin.Base.{
  String, ◌≡◌, ◌∙◌, subst, refl, ap, true, false, Option, none, some, [], ◌∷◌, ◌++◌, reject,
  Bool-cases, inl, inr,
}
use clean_arch_go_gin.Base.Int.{ℤ, ltb_ℤ}
use clean_arch_go_gin.Base.Effect.{
  Result, ok, raise, Returns, returned, failed, continue, continue-Returns, continue-traced,
  rename-same, left_by, renamed, Returns-mono,
}
use clean_arch_go_gin.Apperr.{Error, Sentinel, failure}
use clean_arch_go_gin.Entity.{RefreshTokenEntity}
use clean_arch_go_gin.Database.{Tables, Views, tx, begin_tx}
use clean_arch_go_gin.Outside.{Outside}
use clean_arch_go_gin.Outside.Laws.{Laws, Finds, Lacks, forget}
use clean_arch_go_gin.Repository.Context.{Context, into, select_done, select_done-Answers}
use clean_arch_go_gin.Repository.User.Laws.{LookedUp}
use clean_arch_go_gin.Repository.RefreshToken.{owned_by, has_hash, find_by_token_hash}
use clean_arch_go_gin.Repository.RefreshToken.Laws.{
  find_by_token_hash-Answers, delete_by_token_hash-Writes,
}
use clean_arch_go_gin.Repository.Tx.Laws.{Works, published, within_tx-Commits}
use clean_arch_go_gin.Response.{RefreshResponse}
use clean_arch_go_gin.Service.Token.Claims.{TokenClaims}
use clean_arch_go_gin.Service.Token.{hash, validate_refresh_token}
use clean_arch_go_gin.Service.Token.Laws.{Verified, validate_refresh_token-Answers}
use clean_arch_go_gin.Service.User.Tokens.{UserService, internally}
use clean_arch_go_gin.Service.User.Tokens.Laws.{
  IsRowOf, IsPairFor, revoke_refresh_tokens-Writes, issue_tokens-Writes,
}
use clean_arch_go_gin.Service.User.Session.{
  caused_by, handle_reuse, drop_expired, rotate, exchange, check_stored, refresh,
}

module _ (o : Outside) (s : UserService) (token : String) where
  -- The time at which a refresh compares the expiry of the stored row: that of the world which the
  -- look at the context, the validation and the query leave.
  abbrev pub checked_at : Context → o.World → ℤ
  checked_at ctx w =
      let w₁ = (select_done o w).1 in
      let w₂ = (validate_refresh_token o s.token_service token w₁).1 in
      (o.now (find_by_token_hash o ctx (hash o token) w₂).1).0

module _ (o : Outside) (s : UserService) (token : String) (now : ℤ) where
  -- The presented token was stored, has not expired and verifies, its row is replaced by one of the
  -- returned refresh token, both returned tokens are signed for the user that the presented one
  -- names, and no other row of any table has changed.
  pub record IsRotated (pair : String × String) (t t' : Tables) : Type 0 where
    pub stored : RefreshTokenEntity
    pub presented : Finds (has_hash (hash o token)) t.tokens stored
    pub live : ltb_ℤ stored.expires_at now ≡ false
    pub claims : TokenClaims
    pub verified : Verified o s.token_service token claims
    pub signed :
        IsPairFor o s
          (record { id = claims.user_id; email = claims.email; name = claims.name })
          pair
    pub row : RefreshTokenEntity
    pub recorded : IsRowOf o claims.user_id pair.1 (reject (has_hash (hash o token)) t.tokens) row
    pub replaced : t' ≡ record t { tokens = reject (has_hash (hash o token)) t.tokens ++ row ∷ [] }

  -- A refresh that fails has written nothing, or it has revoked every session of the user that a
  -- verified token names which is not stored, or it has dropped the row of an expired token.
  pub data Refused (t : Tables) : Error → Tables → Type 0 where
    unchanged : {e : Error} {t' : Tables} → t' ≡ t → Refused t e t'
    reused :
        {t' : Tables} (claims : TokenClaims)
        → Verified o s.token_service token claims
        → Lacks (has_hash (hash o token)) t.tokens
        → t' ≡ record t { tokens = reject (owned_by claims.user_id) t.tokens }
        → Refused t (failure Sentinel.err_refresh_token_revoked) t'
    expired :
        {t' : Tables} (stored : RefreshTokenEntity)
        → Finds (has_hash (hash o token)) t.tokens stored
        → ltb_ℤ stored.expires_at now ≡ true
        → t' ≡ record t { tokens = reject (has_hash (hash o token)) t.tokens }
        → Refused t (failure Sentinel.err_refresh_token_expired) t'

module _ (o : Outside) (l : Laws o) (s : UserService) where
  open o use {World, views}

  -- A call that is tried, after which an error of its own is raised whatever it returned.
  tried :
      {A B : Type 0} {P : A → World → Type 0} {Q : Error → World → Type 0} {G : B → World → Type 0}
      {R : Error → World → Type 0} (x : Error) {r : Result Error A × World}
      → Returns P Q r
      → ((a : A) (w : World) → P a w → R x w)
      → ((e : Error) (w : World) → Q e w → R x w)
      → Returns G R (continue (λ _. raise x) (ok r.0, r.1))
  unfolding continue
  tried x (returned p) good bad = failed (good _ _ p)
  tried x (failed q) good bad = failed (bad _ _ q)

  -- How a refresh that looks at the clock at the time `now` ends, begun where the committed tables
  -- are `t`.
  abbrev pub Ends : String → ℤ → Tables → Result Error RefreshResponse × World → Type 0
  Ends token now t =
      Returns
        (λ resp w'.
          IsRotated o s token now (resp.access_token, resp.refresh_token) t (views w').committed)
        (λ x w'. Refused o s token now t x (views w').committed)

  module _ (token : String) (ctx : Context) (outermost : ctx.transaction ≡ none)
      (claims : TokenClaims) (verified : Verified o s.token_service token claims) (w : World)
      (v : Views) (e : views w ≡ v) (now : ℤ) where
    handle_reuse-Ends :
        Lacks (has_hash (hash o token)) v.committed.tokens
        → Ends token now v.committed (handle_reuse o s claims.user_id ctx w)
    unfolding handle_reuse
    handle_reuse-Ends missing =
        tried (failure Sentinel.err_refresh_token_revoked)
          (revoke_refresh_tokens-Writes o l s ctx w v e claims.user_id)
          (λ _ _ p.
            reused claims verified missing (ap (λ (u : Views). u.committed) (rw outermost at p)))
          (λ _ _ q. unchanged (ap (λ (u : Views). u.committed) q))

    drop_expired-Ends :
        (stored : RefreshTokenEntity)
        → Finds (has_hash (hash o token)) v.committed.tokens stored
        → ltb_ℤ stored.expires_at now ≡ true
        → Ends token now v.committed (drop_expired o s (hash o token) ctx w)
    unfolding drop_expired
    drop_expired-Ends stored found late =
        tried (failure Sentinel.err_refresh_token_expired)
          (delete_by_token_hash-Writes o l ctx w v e (hash o token))
          (λ _ _ p. expired stored found late (ap (λ (u : Views). u.committed) (rw outermost at p)))
          (λ _ _ q. unchanged (ap (λ (u : Views). u.committed) q))

    rotate-Works :
        (stored : RefreshTokenEntity) (w₀ : World)
        → Finds (has_hash (hash o token)) v.committed.tokens stored
        → ltb_ℤ stored.expires_at now ≡ false
        → views w₀ ≡ begin_tx v
        → Works o
            (λ pair t'. IsRotated o s token now pair v.committed t')
            v.committed
            (rotate o s (hash o token) claims (into ctx tx) w₀)
    unfolding rotate
    rotate-Works stored w₀ found live began =
        continue-Returns
          (rename-same (internally "rotating refresh token")
            (delete_by_token_hash-Writes o l (into ctx tx) w₀ (begin_tx v) began (hash o token)))
          (λ _ w₁ p.
            Returns-mono (issue_tokens-Writes o l s (into ctx tx) w₁ _ p _)
              (λ pair w₂ q. published (IsRotated o s token now pair v.committed) q.after (record {
                stored = stored;
                presented = found;
                live = live;
                claims = claims;
                verified = verified;
                signed = q.signed;
                row = q.row;
                recorded = q.recorded;
                replaced = refl;
              }))
              (λ _ _ q. ap (λ (u : Views). u.committed) q))
          (λ _ _ q. ap (λ (u : Views). u.committed) q)

    exchange-Ends :
        (stored : RefreshTokenEntity)
        → Finds (has_hash (hash o token)) v.committed.tokens stored
        → ltb_ℤ stored.expires_at now ≡ false
        → Ends token now v.committed (exchange o s (hash o token) claims ctx w)
    unfolding exchange
    exchange-Ends stored found live =
        continue-Returns
          (within_tx-Commits o l ctx outermost
            (λ pair t'. IsRotated o s token now pair v.committed t') _ w v e
            (λ w₀ began. rotate-Works stored w₀ found live began))
          (λ _ _ q. returned q) (λ _ _ q. unchanged q)

  module _ (token : String) (ctx : Context) (outermost : ctx.transaction ≡ none) where
    read_at :
        (w w₁ w₂ w₃ : World)
        → w₁ ≡ (select_done o w).1
        → w₂ ≡ (validate_refresh_token o s.token_service token w₁).1
        → w₃ ≡ (find_by_token_hash o ctx (hash o token) w₂).1
        → (o.now w₃).0 ≡ checked_at o s token ctx w
    read_at w w₁ w₂ w₃ e₁ e₂ e₃ =
        let find : World → World = λ u. (find_by_token_hash o ctx (hash o token) u).1 in
        let check : World → World = λ u. (validate_refresh_token o s.token_service token u).1 in
        ap (λ u. (o.now u).0) (e₃ ∙ ap find (e₂ ∙ ap check e₁))

    check_stored-Ends :
        (claims : TokenClaims)
        → Verified o s.token_service token claims
        → (w : World) (v : Views) → views w ≡ v
        → (found : Option RefreshTokenEntity)
        → LookedUp (has_hash (hash o token)) v.committed.tokens found
        → Ends token (o.now w).0 v.committed (check_stored o s (hash o token) claims found ctx w)
    unfolding check_stored continue
    check_stored-Ends claims verified w v e none missing =
        handle_reuse-Ends token ctx outermost claims verified w v e (o.now w).0 missing
    check_stored-Ends claims verified w v e (some stored) found =
        let now = (o.now w).0 in
        let w₁ = (o.now w).1 in
        let same = l.now_law w ∙ e in
        elim (Bool-cases (ltb_ℤ stored.expires_at now)) [
          | inl late ↦
              rw (late, continue)
                (drop_expired-Ends token ctx outermost claims verified w₁ v same now stored found
                  late)
          | inr live ↦
              rw (live, continue)
                (exchange-Ends token ctx outermost claims verified w₁ v same now stored found live)
        ]

    -- Refreshing, called outside a transaction. If it succeeds, the presented token verifies and was
    -- stored in a row that had not expired at the time that Refresh compares with; its row is gone
    -- and in its place is one new row, of the returned refresh token and for the user that the
    -- presented one names; no other row of any table has changed. If it fails, the database is as
    -- before, except in two cases: a verified token that is not stored may have ended every session
    -- of its user, and nobody else's, and a token whose row had expired at that time may have had
    -- that row dropped.
    pub refresh-rotates :
        (w : World)
        → Ends token (checked_at o s token ctx w) (views w).committed (refresh o s token ctx w)
    unfolding refresh
    refresh-rotates w =
        continue-traced (select_done-Answers o l w _ refl)
          (λ _ w₁ at₁ p.
            continue-traced
              (rename-same (caused_by Sentinel.err_invalid_refresh_token)
                (forget o (validate_refresh_token-Answers o l s.token_service w₁ _ p.0 token)))
              (λ claims w₂ at₂ q.
                continue-traced
                  (rename-same (internally "verifying refresh token")
                    (forget o (find_by_token_hash-Answers o l ctx w₂ _ q.0 (hash o token))))
                  (λ found w₃ at₃ r.
                    subst
                      (λ time.
                        Ends token time (views w).committed
                          (check_stored o s (hash o token) claims found ctx w₃))
                      (read_at w w₁ w₂ w₃ (left_by at₁) (renamed _ _ at₂) (renamed _ _ at₃))
                      (check_stored-Ends claims q.1 w₃ _ r.0 found (rw outermost at r.1)))
                  (λ _ _ _ r. unchanged (ap (λ (u : Views). u.committed) r)))
              (λ _ _ _ q. unchanged (ap (λ (u : Views). u.committed) q)))
          (λ _ _ _ q. unchanged (ap (λ (u : Views). u.committed) q.0))

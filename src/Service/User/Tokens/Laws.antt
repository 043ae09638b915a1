-- ===== src/Service/User/Tokens/Laws.antt =====
-- What issuing, storing and revoking do to the stored tokens, on the connection of the context.
use clean_arch_go_gin.Base.{
  ℕ, String, ◌≡◌, ◌≢◌, ◌∙◌, sym, subst, ap, List, [], ◌∷◌, ◌++◌, All, length, select, reject,
}
use clean_arch_go_gin.Base.Int.{ℤ, ◌+ℤ◌}
use clean_arch_go_gin.Base.Effect.{
  returned, continue-Returns, continue-traced, rename-same, rename-Returns,
}
use clean_arch_go_gin.Entity.{RefreshTokenEntity}
use clean_arch_go_gin.Database.{Views, Handle, pool, at}
use clean_arch_go_gin.Outside.{Outside}
use clean_arch_go_gin.Outside.Laws.{Laws, Writes, forget}
use clean_arch_go_gin.Repository.Context.{Context, conn, select_done, select_done-Answers}
use clean_arch_go_gin.Repository.RefreshToken.{owned_by, expired_before, delete_expired}
use clean_arch_go_gin.Repository.RefreshToken.Laws.{
  with_tokens, create-Writes, delete_by_user_id-Writes, delete_expired-Writes,
}
use clean_arch_go_gin.Response.{GetUser}
use clean_arch_go_gin.Service.Token.{hash}
use clean_arch_go_gin.Service.Token.Laws.{
  IsAccessTokenFor, IsRefreshTokenFor, lift-Answers, generate_access_token-Answers,
  generate_refresh_token-Answers,
}
use clean_arch_go_gin.Service.User.Tokens.{
  UserService, internally, store_refresh_token, revoke_refresh_tokens, purge_expired_refresh_tokens,
  issue_tokens,
}

module _ (o : Outside) where
  -- The time that a call reads which first asks whether the context is done.
  abbrev pub asked_at : o.World → ℤ
  asked_at w = (o.now (select_done o w).1).0

  -- The row that records a refresh token, among rows none of which has its digest.
  pub record IsRowOf (user_id : ℕ) (token : String) (rows : List RefreshTokenEntity)
      (row : RefreshTokenEntity) : Type 0 where
    pub owner : row.user_id ≡ user_id
    pub digest : row.token_hash ≡ hash o token
    pub fresh : All (λ other. other.token_hash ≢ hash o token) rows

  -- The pair of tokens that a user is issued.
  pub record IsPairFor (s : UserService) (user : GetUser) (pair : String × String) : Type 0 where
    pub access : IsAccessTokenFor o s.token_service user.id user.email user.name pair.0
    pub refresh : IsRefreshTokenFor o s.token_service user.id pair.1

  -- What `issueTokens` leaves behind on handle `h`, begun at the views `v`.
  pub record Issues (s : UserService) (h : Handle) (v : Views) (user : GetUser)
      (pair : String × String) (v' : Views) : Type 0 where
    pub signed : IsPairFor s user pair
    pub row : RefreshTokenEntity
    pub recorded : IsRowOf user.id pair.1 (at h v).tokens row
    pub issued_at : ℤ
    pub expiry : row.expires_at ≡ issued_at +ℤ s.refresh_token_ttl
    pub after : v' ≡ with_tokens h ((at h v).tokens ++ row ∷ []) v

  stamped_row :
      {user_id : ℕ} {token : String} {rows : List RefreshTokenEntity}
      {created updated expires_at : ℤ} {id : ℕ} (row : RefreshTokenEntity)
      → row ≡ record {
        id = id;
        user_id = user_id;
        token_hash = hash o token;
        expires_at = expires_at;
        created_at = created;
        updated_at = updated;
      }
      → All (λ other. other.token_hash ≢ hash o token) rows
      → IsRowOf user_id token rows row
  stamped_row row e fresh = record {
    owner = ap (λ (x : RefreshTokenEntity). x.user_id) e;
    digest = ap (λ (x : RefreshTokenEntity). x.token_hash) e;
    fresh = fresh;
  }

module _ (o : Outside) (l : Laws o) (s : UserService) (ctx : Context) (w : o.World) (v : Views)
    (e : o.views w ≡ v) where
  abbrev h : Handle
  h = conn ctx pool

  abbrev tokens : List RefreshTokenEntity
  tokens = (at (conn ctx pool) v).tokens

  pub store_refresh_token-Writes :
      (user_id : ℕ) (token : String) (expires_at : ℤ)
      → Writes o
          (λ _ v'.
            (row : RefreshTokenEntity) × IsRowOf o user_id token tokens row
            × (row.expires_at ≡ expires_at)
            × (v' ≡ with_tokens h (tokens ++ row ∷ []) v))
          v
          (store_refresh_token o s ctx user_id token expires_at w)
  unfolding store_refresh_token
  store_refresh_token-Writes user_id token expires_at =
      continue-Returns (select_done-Answers o l w v e)
        (λ _ w₁ p.
          continue-Returns (lift-Answers o o.new_uuid w₁ v (l.new_uuid_law w₁ ∙ p.0))
            (λ id w₂ q.
              rename-Returns (internally "storing refresh token") (create-Writes o l ctx w₂ v q.0 _)
                (λ _ _ r. (
                  r.0,
                  stamped_row o r.0 r.1.2 r.3,
                  ap (λ (x : RefreshTokenEntity). x.expires_at) r.1.2,
                  r.2,
                ))
                (λ _ _ r. r))
            (λ _ _ q. q.0))
        (λ _ _ q. q.0)

  pub revoke_refresh_tokens-Writes :
      (user_id : ℕ)
      → Writes o
          (λ _ v'. v' ≡ with_tokens h (reject (owned_by user_id) tokens) v)
          v
          (revoke_refresh_tokens o s ctx user_id w)
  unfolding revoke_refresh_tokens
  revoke_refresh_tokens-Writes user_id =
      continue-Returns (select_done-Answers o l w v e)
        (λ _ w₁ p.
          rename-same (internally "revoking refresh tokens")
            (delete_by_user_id-Writes o l ctx w₁ v p.0 user_id))
        (λ _ _ q. q.0)

  pub purge_expired_refresh_tokens-Writes :
      Writes o
        (λ n v'.
          (v' ≡ with_tokens h (reject (expired_before (asked_at o w)) tokens) v)
          × (n ≡ length (select (expired_before (asked_at o w)) tokens)))
        v
        (purge_expired_refresh_tokens o s ctx w)
  unfolding purge_expired_refresh_tokens
  purge_expired_refresh_tokens-Writes =
      continue-traced (select_done-Answers o l w v e)
        (λ _ w₁ at p.
          continue-Returns (lift-Answers o o.now w₁ v (l.now_law w₁ ∙ p.0))
            (λ now w₂ q. rename-same (internally "purging expired refresh tokens") (
              subst
                (λ t.
                  Writes o
                    (λ n v'.
                      (v' ≡ with_tokens h (reject (expired_before t) tokens) v)
                      × (n ≡ length (select (expired_before t) tokens)))
                    v (delete_expired o ctx now w₂))
                (q.1 ∙ sym (ap (λ r. (o.now r.1).0) at))
                (delete_expired-Writes o l ctx w₂ v q.0 now)))
            (λ _ _ q. q.0))
        (λ _ _ _ q. q.0)

module _ (o : Outside) (l : Laws o) (s : UserService) (ctx : Context) (w : o.World) (v : Views)
    (e : o.views w ≡ v) where
  pub issue_tokens-Writes :
      (user : GetUser)
      → Writes o (Issues o s (conn ctx pool) v user) v (issue_tokens o s ctx user w)
  unfolding issue_tokens
  issue_tokens-Writes user =
      continue-Returns
        (rename-same (internally "generating access token") (
          forget o
            (generate_access_token-Answers o l s.token_service w v e user.id user.email user.name)))
        (λ access w₁ p.
          continue-Returns
            (rename-same (internally "generating refresh token")
              (forget o (generate_refresh_token-Answers o l s.token_service w₁ v p.0 user.id)))
            (λ refresh w₂ q.
              continue-Returns (lift-Answers o o.now w₂ v (l.now_law w₂ ∙ q.0))
                (λ now w₃ r.
                  continue-Returns (store_refresh_token-Writes o l s ctx w₃ v r.0 user.id refresh _)
                    (λ _ w₄ t. returned (record {
                      signed = record { access = p.1; refresh = q.1 };
                      row = t.0;
                      recorded = t.1;
                      issued_at = now;
                      expiry = t.2;
                      after = t.3;
                    }))
                    (λ _ _ t. t))
                (λ _ _ r. r.0))
            (λ _ _ q. q))
        (λ _ _ p. p)

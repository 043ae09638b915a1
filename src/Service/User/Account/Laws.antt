-- ===== src/Service/User/Account/Laws.antt =====
-- Deleting an account and changing a password are all or nothing, and end the other sessions.
use mathlib.Core.List.{append-nil}
use clean_arch_go_gin.Base.{
  ℕ, String, ◌≡◌, ◌≢◌, ◌∙◌, refl, sym, ap, subst, true, ◌&&◌, none, some, List, [], ◌∷◌, ◌++◌, All,
  select, reject, select-reject_self, reject-reject_self, select-append, reject-append, arith,
  Bool-cases, inl, inr,
}
use clean_arch_go_gin.Base.Effect.{
  returned, failed, continue-Returns, rename-same, rename-Returns, Returns-mono,
}
use clean_arch_go_gin.Entity.{UserEntity, RefreshTokenEntity, is_live}
use clean_arch_go_gin.Database.{Tables, Views, tx, begin_tx}
use clean_arch_go_gin.Outside.{Outside}
use clean_arch_go_gin.Outside.Laws.{Laws, Finds, Lacks, forget}
use clean_arch_go_gin.Repository.Context.{Context, into, select_done-Answers}
use clean_arch_go_gin.Repository.User.Laws.{find_by_id-Answers, update-Writes, delete-Writes}
use clean_arch_go_gin.Repository.RefreshToken.{owned_by}
use clean_arch_go_gin.Repository.Tx.Laws.{Works, Commits, published, within_tx-Commits}
use clean_arch_go_gin.Request.{ChangePasswordRequest}
use clean_arch_go_gin.Response.{ChangePasswordResponse}
use clean_arch_go_gin.Service.Token.{hash}
use clean_arch_go_gin.Service.User.Tokens.{UserService, internally}
use clean_arch_go_gin.Service.User.Tokens.Laws.{
  IsPairFor, revoke_refresh_tokens-Writes, issue_tokens-Writes,
}
use clean_arch_go_gin.Service.User.Credentials.{profile}
use clean_arch_go_gin.Service.User.Account.{
  only_password, replace_password, change_verified, change_password, remove_account, delete_account,
}
use clean_arch_go_gin.Service.User.Account.Rows.{
  has_id, soft_delete-Lacks, reject-soft_delete, reject-update_rows, update_rows-password,
}

-- The account is gone and so are its sessions; nothing of the others has changed.
pub record IsRemoved (id : ℕ) (t t' : Tables) : Type 0 where
  pub no_sessions : select (owned_by id) t'.tokens ≡ []
  pub other_sessions : reject (owned_by id) t'.tokens ≡ reject (owned_by id) t.tokens
  pub no_user : Lacks (λ u. has_id id u && is_live u) t'.users
  pub other_users : reject (has_id id) t'.users ≡ reject (has_id id) t.users

module _ (o : Outside) (l : Laws o) (s : UserService) where
  open o use {World, views}

  remove_account-Works :
      (id : ℕ) (ctx : Context) (w₀ : World) (v : Views)
      → views w₀ ≡ begin_tx v
      → Works o
          (λ _ t'. IsRemoved id v.committed t')
          v.committed
          (remove_account o s id (into ctx tx) w₀)
  unfolding remove_account
  remove_account-Works id ctx w₀ v e =
      continue-Returns (revoke_refresh_tokens-Writes o l s (into ctx tx) w₀ (begin_tx v) e id)
        (λ _ w₁ p.
          rename-Returns (internally "deleting user") (delete-Writes o l (into ctx tx) w₁ _ p id)
            (λ _ w₂ q. published (IsRemoved id v.committed) q.1 (record {
              no_sessions = select-reject_self (owned_by id) _;
              other_sessions = reject-reject_self (owned_by id) _;
              no_user = soft_delete-Lacks id q.0 v.committed.users;
              other_users = reject-soft_delete id q.0 v.committed.users;
            }))
            (λ _ _ q. ap (λ (u : Views). u.committed) q))
        (λ _ _ q. ap (λ (u : Views). u.committed) q)

  -- Deleting an account, called outside a transaction: if it succeeds, the account has no live row
  -- and no session left, and the rows and sessions of all others are as before; if it fails,
  -- whatever the step, the database is as before.
  pub delete_account-atomic :
      (id : ℕ) (ctx : Context) (w : World)
      → ctx.transaction ≡ none
      → Commits o
          (λ _ t'. IsRemoved id (views w).committed t')
          (views w).committed
          (delete_account o s id ctx w)
  unfolding delete_account
  delete_account-atomic id ctx w outermost =
      continue-Returns (select_done-Answers o l w _ refl)
        (λ _ w₁ p.
          continue-Returns
            (rename-same (internally "finding user by id")
              (forget o (find_by_id-Answers o l ctx w₁ _ p.0 id)))
            (elim [
              | none ↦ λ w₂ q. failed (ap (λ (u : Views). u.committed) q.0)
              | some user ↦ λ w₂ q.
                  within_tx-Commits o l ctx outermost (λ _ t'. IsRemoved id (views w).committed t')
                    _ w₂ (views w) q.0 (λ w₀ e. remove_account-Works id ctx w₀ (views w) e)
            ])
            (λ _ _ q. ap (λ (u : Views). u.committed) q))
        (λ _ _ q. ap (λ (u : Views). u.committed) q.0)

-- The account had a live row, whose password the current one passes; its live rows have a hash of
-- the new password, its only session is the one that the
-- answer's pair of tokens belongs to, and nothing of the others has changed.
pub record IsReplaced (o : Outside) (s : UserService) (id : ℕ) (current password : String)
    (pair : String × String) (t t' : Tables) : Type 0 where
  pub verifies :
      All
        (λ u. (has_id id u && is_live u) ≡ true → o.compare_password u.password password ≡ true)
        t'.users
  pub row : RefreshTokenEntity
  pub only_session : select (owned_by id) t'.tokens ≡ row ∷ []
  pub digest : row.token_hash ≡ hash o pair.1
  pub user : UserEntity
  pub found : Finds (λ u. has_id id u && is_live u) t.users user
  pub knows : o.compare_password user.password current ≡ true
  pub same_user : user.id ≡ id
  pub signed : IsPairFor o s (profile user) pair
  pub other_sessions : reject (owned_by id) t'.tokens ≡ reject (owned_by id) t.tokens
  pub other_users : reject (has_id id) t'.users ≡ reject (has_id id) t.users

-- One row more, which is the account's.
select-only :
    (id : ℕ) (row : RefreshTokenEntity) (rows : List RefreshTokenEntity)
    → row.user_id ≡ id
    → select (owned_by id) (reject (owned_by id) rows ++ row ∷ []) ≡ row ∷ []
select-only id row rows e =
    rw select-append (rw (select-reject_self (owned_by id) rows) (ground arith))

reject-only :
    (id : ℕ) (row : RefreshTokenEntity) (rows : List RefreshTokenEntity)
    → row.user_id ≡ id
    → reject (owned_by id) (reject (owned_by id) rows ++ row ∷ []) ≡ reject (owned_by id) rows
reject-only id row rows e = rw reject-append (
    rw (reject-reject_self (owned_by id) rows)
      (ground (arith, append-nil (reject (owned_by id) rows))))

All-imp :
    {A : Type 0} {P Q : A → Type 0} (xs : List A) → ((x : A) → P x → Q x) → All P xs → All Q xs
All-imp [] f h = tt
All-imp (x ∷ xs) f h = (f x h.0, All-imp xs f h.1)

module _ (o : Outside) (l : Laws o) (s : UserService) where
  open o use {World, views, compare_password}

  module _ (id : ℕ) (user : UserEntity) (same : user.id ≡ id) (current password : String)
      (knows : compare_password user.password current ≡ true) (hashed : List ℕ)
      (hash_ok : (hashed ≢ []) × (compare_password hashed password ≡ true)) where
    replace_password-Works :
        (ctx : Context) (w₀ : World) (v : Views)
        → Finds (λ u. has_id id u && is_live u) v.committed.users user
        → views w₀ ≡ begin_tx v
        → Works o
            (λ pair t'. IsReplaced o s id current password pair v.committed t')
            v.committed
            (replace_password o s id user hashed (into ctx tx) w₀)
    unfolding replace_password
    replace_password-Works ctx w₀ v found e =
        continue-Returns
          (rename-same (internally "updating password")
            (update-Writes o l (into ctx tx) w₀ (begin_tx v) e id (only_password hashed)))
          (λ _ w₁ p.
            continue-Returns (revoke_refresh_tokens-Writes o l s (into ctx tx) w₁ _ p.1 id)
              (λ _ w₂ q.
                Returns-mono (issue_tokens-Writes o l s (into ctx tx) w₂ _ q (profile user))
                  (λ pair w₃ r.
                    published (IsReplaced o s id current password pair v.committed) r.after
                      (record {
                        verifies =
                            All-imp _
                              (λ u h k.
                                subst (λ x. compare_password x password ≡ true) (sym (h k))
                                  hash_ok.1)
                              (update_rows-password id p.0 (only_password hashed) v.committed.users
                                hash_ok.0);
                        row = r.row;
                        only_session = select-only id r.row _ (r.recorded.owner ∙ same);
                        digest = r.recorded.digest;
                        user = user;
                        found = found;
                        knows = knows;
                        same_user = same;
                        signed = r.signed;
                        other_sessions = reject-only id r.row _ (r.recorded.owner ∙ same);
                        other_users =
                            reject-update_rows id p.0 (only_password hashed) v.committed.users;
                      }))
                  (λ _ _ r. ap (λ (u : Views). u.committed) r))
              (λ _ _ q. ap (λ (u : Views). u.committed) q))
          (λ _ _ q. ap (λ (u : Views). u.committed) q)

  abbrev pair_of : ChangePasswordResponse → String × String
  pair_of resp = (resp.access_token, resp.refresh_token)

  module _ (id : ℕ) (req : ChangePasswordRequest) (ctx : Context)
      (outermost : ctx.transaction ≡ none) where
    change_verified-Commits :
        (user : UserEntity) (w₀ : World) (v : Views)
        → user.id ≡ id
        → compare_password user.password req.current_password ≡ true
        → Finds (λ u. has_id id u && is_live u) v.committed.users user
        → views w₀ ≡ v
        → Commits o
            (λ resp t'.
              IsReplaced o s id req.current_password req.new_password (pair_of resp) v.committed t')
            v.committed
            (change_verified o s id user req ctx w₀)
    unfolding change_verified
    change_verified-Commits user w₀ v same knows found e =
        continue-Returns
          (rename-same (internally "hashing new password")
            (forget o (l.generate_password_law req.new_password w₀ v e)))
          (λ hashed w₁ p.
            continue-Returns
              (within_tx-Commits o l ctx outermost
                (λ pair t'.
                  IsReplaced o s id req.current_password req.new_password pair v.committed t')
                _ w₁ v p.0
                (λ w₂ e₂.
                  replace_password-Works id user same req.current_password req.new_password knows
                    hashed p.1 ctx w₂ v found e₂))
              (λ _ _ q. returned q) (λ _ _ q. q))
          (λ _ _ p. ap (λ (u : Views). u.committed) p)

    -- Changing a password, called outside a transaction: if it succeeds, the current password passes
    -- the hash that the account had; every live row of the account has a hash that the new password passes, the only session of the account is the one
    -- of the returned refresh token, both returned tokens are signed for it, and the rows and
    -- sessions of the others are as before; if it fails, the database is as before.
    pub change_password-atomic :
        (w : World)
        → Commits o
            (λ resp t'.
              IsReplaced o s id req.current_password req.new_password
                (pair_of resp)
                (views w).committed
                t')
            (views w).committed
            (change_password o s id req ctx w)
    unfolding change_password
    change_password-atomic w =
        continue-Returns (select_done-Answers o l w _ refl)
          (λ _ w₁ p.
            continue-Returns
              (rename-same (internally "finding user by id")
                (forget o (find_by_id-Answers o l ctx w₁ _ p.0 id)))
              (elim [
                | none ↦ λ w₂ q. failed (ap (λ (u : Views). u.committed) q.0)
                | some user ↦ λ w₂ q.
                    elim (Bool-cases (o.compare_password user.password req.current_password)) [
                      | inl k ↦ rw k (
                          change_verified-Commits user w₂ (views w) (ground (arith, q.1.1)) k
                            (rw outermost at q.1) q.0)
                      | inr k ↦ rw k (failed (ap (λ (u : Views). u.committed) q.0))
                    ]
              ])
              (λ _ _ q. ap (λ (u : Views). u.committed) q))
          (λ _ _ q. ap (λ (u : Views). u.committed) q.0)

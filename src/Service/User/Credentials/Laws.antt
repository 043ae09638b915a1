-- ===== src/Service/User/Credentials/Laws.antt =====
-- Registering is all or nothing and takes an email only once; a login starts one session.
use clean_arch_go_gin.Base.{
  String, ◌≡◌, ◌≢◌, ◌∙◌, refl, ap, true, ◌&&◌, none, some, [], ◌∷◌, ◌++◌, All, Bool-cases, inl, inr,
  str_eq,
}
use clean_arch_go_gin.Base.Effect.{returned, failed, continue-Returns, rename-same, Returns-mono}
use clean_arch_go_gin.Entity.{UserEntity, RefreshTokenEntity, is_live}
use clean_arch_go_gin.Database.{Tables, Views, tx, begin_tx}
use clean_arch_go_gin.Outside.{Outside}
use clean_arch_go_gin.Outside.Laws.{Laws, Writes, Finds, StampedUser, forget}
use clean_arch_go_gin.Repository.Context.{Context, into, select_done-Answers}
use clean_arch_go_gin.Repository.User.Laws.{find_by_email-Answers, create-Writes}
use clean_arch_go_gin.Repository.Tx.Laws.{Works, Commits, published, within_tx-Commits}
use clean_arch_go_gin.Request.{RegisterUserRequest, LoginRequest}
use clean_arch_go_gin.Response.{LoginResponse, RegisterResponse}
use clean_arch_go_gin.Service.Token.Laws.{lift-Answers}
use clean_arch_go_gin.Service.User.Tokens.{UserService, internally}
use clean_arch_go_gin.Service.User.Tokens.Laws.{IsRowOf, IsPairFor, issue_tokens-Writes}
use clean_arch_go_gin.Service.User.Credentials.{
  create_error, profile, new_user, create_account, register_new, register, login_as, login,
}

-- One live user and one session more than before, the email not in use before, not even by a
-- soft-deleted user.
pub record IsAdded (o : Outside) (s : UserService) (user : UserEntity) (pair : String × String)
    (t t' : Tables) : Type 0 where
  pub unused : All (λ other. other.email ≢ user.email) t.users
  pub stored : UserEntity
  pub stamped : StampedUser user stored
  pub users : t'.users ≡ t.users ++ stored ∷ []
  pub row : RefreshTokenEntity
  pub recorded : IsRowOf o user.id pair.1 t.tokens row
  pub tokens : t'.tokens ≡ t.tokens ++ row ∷ []
  pub signed : IsPairFor o s (profile user) pair

-- The same, of an account that is the one asked for and that is described by the answer.
pub record IsRegistered (o : Outside) (s : UserService) (req : RegisterUserRequest)
    (resp : RegisterResponse) (t t' : Tables) : Type 0 where
  pub user : UserEntity
  pub added : IsAdded o s user (resp.access_token, resp.refresh_token) t t'
  pub email : user.email ≡ req.email
  pub name : user.name ≡ req.name
  pub live : user.deleted_at ≡ none
  pub verifies : o.compare_password user.password req.password ≡ true
  pub described : resp.user ≡ profile user

-- A live user with the email and the password has one session more, that of the returned tokens.
pub record IsLoggedIn (o : Outside) (s : UserService) (req : LoginRequest) (resp : LoginResponse)
    (t t' : Tables) : Type 0 where
  pub user : UserEntity
  pub known : Finds (λ u. str_eq u.email req.email && is_live u) t.users user
  pub verified : o.compare_password user.password req.password ≡ true
  pub described : resp.user ≡ profile user
  pub signed : IsPairFor o s (profile user) (resp.access_token, resp.refresh_token)
  pub row : RefreshTokenEntity
  pub recorded : IsRowOf o user.id resp.refresh_token t.tokens row
  pub after : t' ≡ record t { tokens = t.tokens ++ row ∷ [] }

module _ (o : Outside) (l : Laws o) (s : UserService) where
  open o use {World, views}

  create_account-Works :
      (user : UserEntity) (ctx : Context) (w₀ : World) (v : Views)
      → views w₀ ≡ begin_tx v
      → Works o
          (λ pair t'. IsAdded o s user pair v.committed t')
          v.committed
          (create_account o s user (into ctx tx) w₀)
  unfolding create_account
  create_account-Works user ctx w₀ v e =
      continue-Returns
        (rename-same create_error (create-Writes o l (into ctx tx) w₀ (begin_tx v) e user))
        (λ _ w₁ p.
          Returns-mono (issue_tokens-Writes o l s (into ctx tx) w₁ _ p.2 (profile user))
            (λ pair w₂ q. published (IsAdded o s user pair v.committed) q.after (record {
              unused = p.3;
              stored = p.0;
              stamped = p.1;
              users = refl;
              row = q.row;
              recorded = q.recorded;
              tokens = refl;
              signed = q.signed;
            }))
            (λ _ _ q. ap (λ (u : Views). u.committed) q))
        (λ _ _ q. ap (λ (u : Views). u.committed) q)

  module _ (req : RegisterUserRequest) (ctx : Context) (outermost : ctx.transaction ≡ none) where
    register_new-Commits :
        (w : World) (v : Views)
        → views w ≡ v
        → Commits o
            (λ resp t'. IsRegistered o s req resp v.committed t')
            v.committed
            (register_new o s req ctx w)
    unfolding register_new
    register_new-Commits w v e =
        continue-Returns
          (rename-same (internally "hashing password")
            (forget o (l.generate_password_law req.password w v e)))
          (λ hashed w₁ p.
            continue-Returns (lift-Answers o o.new_uuid w₁ v (l.new_uuid_law w₁ ∙ p.0))
              (λ id w₂ q.
                continue-Returns
                  (within_tx-Commits o l ctx outermost
                    (λ pair t'. IsAdded o s (new_user req id hashed) pair v.committed t') _ w₂ v q.0
                    (λ w₀ began. create_account-Works (new_user req id hashed) ctx w₀ v began))
                  (λ pair w₃ r. returned (record {
                    user = new_user req id hashed;
                    added = r;
                    email = refl;
                    name = refl;
                    live = refl;
                    verifies = p.1.1;
                    described = refl;
                  }))
                  (λ _ _ r. r))
              (λ _ _ q. ap (λ (u : Views). u.committed) q.0))
          (λ _ _ p. ap (λ (u : Views). u.committed) p)

    -- Registering, called outside a transaction: if it succeeds, the email was not in use, not even
    -- by a soft-deleted account, and the database has one live user more, with the email, the name
    -- and a hash of the password that were asked for, and one session more, that of the returned
    -- tokens; if it fails, the database is as before.
    pub register-atomic :
        (w : World)
        → Commits o
            (λ resp t'. IsRegistered o s req resp (views w).committed t')
            (views w).committed
            (register o s req ctx w)
    unfolding register
    register-atomic w =
        continue-Returns (select_done-Answers o l w _ refl)
          (λ _ w₁ p.
            continue-Returns
              (rename-same (internally "checking existing user")
                (forget o (find_by_email-Answers o l ctx w₁ _ p.0 req.email)))
              (elim [
                | some user ↦ λ w₂ q. failed (ap (λ (u : Views). u.committed) q.0)
                | none ↦ λ w₂ q. register_new-Commits w₂ (views w) q.0
              ])
              (λ _ _ q. ap (λ (u : Views). u.committed) q))
          (λ _ _ q. ap (λ (u : Views). u.committed) q.0)

  module _ (req : LoginRequest) (ctx : Context) (outermost : ctx.transaction ≡ none) where
    login_as-Writes :
        (user : UserEntity) (w : World) (v : Views)
        → views w ≡ v
        → Finds (λ u. str_eq u.email req.email && is_live u) v.committed.users user
        → o.compare_password user.password req.password ≡ true
        → Writes o
            (λ resp v'. IsLoggedIn o s req resp v.committed v'.committed)
            v
            (login_as o s user ctx w)
    unfolding login_as
    login_as-Writes user w v e known verified =
        continue-Returns (issue_tokens-Writes o l s ctx w v e (profile user))
          (λ pair w₁ p. returned (record {
            user = user;
            known = known;
            verified = verified;
            described = refl;
            signed = p.signed;
            row = p.row;
            recorded = rw outermost at p.recorded;
            after = ap (λ (u : Views). u.committed) (rw outermost at p.after);
          }))
          (λ _ _ p. p)

    -- A login, called outside a transaction: if it succeeds, there is a live user with the email
    -- whose hash the password passes, who is the user of the answer, and one session more, that
    -- of the returned tokens; if it fails, the database is as before.
    pub login-authenticates :
        (w : World)
        → Writes o
            (λ resp v'. IsLoggedIn o s req resp (views w).committed v'.committed)
            (views w)
            (login o s req ctx w)
    unfolding login
    login-authenticates w =
        continue-Returns (select_done-Answers o l w _ refl)
          (λ _ w₁ p.
            continue-Returns
              (rename-same (internally "finding user by email")
                (forget o (find_by_email-Answers o l ctx w₁ _ p.0 req.email)))
              (elim [
                | none ↦ λ w₂ q. failed q.0
                | some user ↦ λ w₂ q.
                    elim (Bool-cases (o.compare_password user.password req.password)) [
                      | inl k ↦ rw k (login_as-Writes user w₂ (views w) q.0 (rw outermost at q.1) k)
                      | inr k ↦ rw k (failed q.0)
                    ]
              ])
              (λ _ _ q. q))
          (λ _ _ q. q.0)

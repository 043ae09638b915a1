-- ===== src/Handler/User/Laws.antt =====
-- A response of the account handlers and the database agree: a success sets or clears the cookies
-- and its work is committed, and a refusal leaves both as they were.
use clean_arch_go_gin.Base.{ℕ, ◌≤◌, ◌<◌, ◌≡◌, refl, ap, false, []}
use clean_arch_go_gin.Base.Effect.{Result, ok, err, returned, failed, Returns-mono}
use clean_arch_go_gin.Apperr.{Error}
use clean_arch_go_gin.Apperr.Laws.{http_status_range}
use clean_arch_go_gin.Database.{Tables, Views}
use clean_arch_go_gin.Outside.{Outside}
use clean_arch_go_gin.Outside.Laws.{Laws}
use clean_arch_go_gin.Repository.Tx.Laws.{Commits}
use clean_arch_go_gin.Request.{RegisterUserRequest, LoginRequest, ChangePasswordRequest}
use clean_arch_go_gin.Response.{RegisterResponse, LoginResponse, ChangePasswordResponse}
use clean_arch_go_gin.Service.User.Tokens.{UserService}
use clean_arch_go_gin.Service.User.Credentials.Laws.{
  IsRegistered, IsLoggedIn, register-atomic, login-authenticates,
}
use clean_arch_go_gin.Service.User.Account.Laws.{
  IsReplaced, IsRemoved, change_password-atomic, delete_account-atomic,
}
use clean_arch_go_gin.Middleware.Auth.{AuthContext, get_user_id_from_context}
use clean_arch_go_gin.Handler.Respond.{Payload, Reply, ok_reply, fail}
use clean_arch_go_gin.Handler.User.{
  CookieConfig, set_auth_cookies, clear_auth_cookies, request_context, answer, bound, identified,
  handle_register, handle_login, handle_change_password, handle_delete_account,
}

-- A client or server error that sets no cookie.
pub record IsRefusal (reply : Reply) : Type 0 where
  pub unsuccessful : reply.body.success ≡ false
  pub status_range : (400 ≤ reply.status) × (reply.status < 600)
  pub no_cookies : reply.cookies ≡ []

pub fail-IsRefusal : (e : Error) → IsRefusal (fail e)
fail-IsRefusal e = record {
  unsuccessful = refl;
  status_range = http_status_range e;
  no_cookies = refl;
}

-- Either the work is done and answered as such, or it is refused and the tables are as before.
pub data Outcome (Good : Reply → Tables → Type 0) (t : Tables) : Reply → Tables → Type 0 where
  completed : {reply : Reply} {t' : Tables} → Good reply t' → Outcome Good t reply t'
  refused : {reply : Reply} {t' : Tables} → IsRefusal reply → t' ≡ t → Outcome Good t reply t'

module _ (o : Outside) where
  open o use {World, views}

  -- The outcome of a handler that ended in a world.
  abbrev pub Handled : (Reply → Tables → Type 0) → Tables → Reply × World → Type 0
  Handled Good t r = Outcome Good t r.0 (views r.1).committed

  answer-Handled :
      {A : Type 0} {P : A → Tables → Type 0} {Good : Reply → Tables → Type 0} {t : Tables}
      (good : A → Reply) {r : Result Error A × World}
      → Commits o P t r
      → ((a : A) (t' : Tables) → P a t' → Good (good a) t')
      → Handled Good t (answer good r)
  unfolding answer
  answer-Handled good (returned p) f = completed (f _ _ p)
  answer-Handled good (failed q) f = refused (fail-IsRefusal _) q

  bound-Handled :
      {A : Type 0} {Good : Reply → Tables → Type 0} (body : Result Error A)
      (run : A → World → Reply × World) (w : World)
      → ((a : A) → body ≡ ok a → Handled Good (views w).committed (run a w))
      → Handled Good (views w).committed (bound body run w)
  unfolding bound
  bound-Handled (ok a) run w h = h a refl
  bound-Handled (err e) run w h = refused (fail-IsRefusal _) refl

  identified-Handled :
      {Good : Reply → Tables → Type 0} (id : Result Error ℕ) (run : ℕ → World → Reply × World)
      (w : World)
      → ((a : ℕ) → id ≡ ok a → Handled Good (views w).committed (run a w))
      → Handled Good (views w).committed (identified id run w)
  unfolding identified
  identified-Handled (ok a) run w h = h a refl
  identified-Handled (err e) run w h = refused (fail-IsRefusal _) refl

module _ (o : Outside) (s : UserService) (h : CookieConfig) where
  -- The successful answers, with what has been done to the tables.
  abbrev pub Registered : Result Error RegisterUserRequest → Tables → Reply → Tables → Type 0
  Registered body t reply t' =
      (req : RegisterUserRequest) × (resp : RegisterResponse) × (body ≡ ok req)
      × IsRegistered o s req resp t t'
      × (reply
          ≡ ok_reply 201 "Registration successful" (Payload.registered resp)
              (set_auth_cookies h resp.access_token resp.refresh_token))

  abbrev pub LoggedIn : Result Error LoginRequest → Tables → Reply → Tables → Type 0
  LoggedIn body t reply t' =
      (req : LoginRequest) × (resp : LoginResponse) × (body ≡ ok req)
      × IsLoggedIn o s req resp t t'
      × (reply
          ≡ ok_reply 200 "Login successful" (Payload.logged_in resp)
              (set_auth_cookies h resp.access_token resp.refresh_token))

  abbrev pub PasswordChanged :
      AuthContext → Result Error ChangePasswordRequest → Tables → Reply → Tables → Type 0
  PasswordChanged auth body t reply t' =
      (id : ℕ) × (req : ChangePasswordRequest) × (resp : ChangePasswordResponse)
      × (get_user_id_from_context o auth ≡ ok id)
      × (body ≡ ok req)
      × IsReplaced o s id req.current_password req.new_password
          (resp.access_token, resp.refresh_token) t t'
      × (reply
          ≡ ok_reply 200 "Password changed" Payload.no_data
              (set_auth_cookies h resp.access_token resp.refresh_token))

  abbrev pub AccountDeleted : AuthContext → Tables → Reply → Tables → Type 0
  AccountDeleted auth t reply t' =
      (id : ℕ) × (get_user_id_from_context o auth ≡ ok id)
      × IsRemoved id t t'
      × (reply ≡ ok_reply 200 "Account deleted" Payload.no_data (clear_auth_cookies h))

module _ (o : Outside) (l : Laws o) (s : UserService) (h : CookieConfig) where
  open o use {World, views}

  -- `POST /auth/register` either answers 201, with the new account in the body and the cookies of its
  -- session, and has added both to the database, or answers an error without cookies and leaves the
  -- database as it was.
  pub handle_register-Handled :
      (body : Result Error RegisterUserRequest) (w : World)
      → Handled o
          (Registered o s h body (views w).committed)
          (views w).committed
          (handle_register o s h body w)
  unfolding handle_register
  handle_register-Handled body w = bound-Handled o body _ w (λ req e.
      answer-Handled o _ (register-atomic o l s req request_context refl w)
        (λ resp t' p. (req, resp, e, p, refl)))

  -- `PATCH /auth/password` either answers 200, with the cookies of the only session that is left to
  -- the authenticated account, and has replaced its password, of which the request gave the current
  -- one; or it answers an error without cookies and leaves the database as it was.
  pub handle_change_password-Handled :
      (auth : AuthContext) (body : Result Error ChangePasswordRequest) (w : World)
      → Handled o
          (PasswordChanged o s h auth body (views w).committed)
          (views w).committed
          (handle_change_password o s h auth body w)
  unfolding handle_change_password
  handle_change_password-Handled auth body w =
      identified-Handled o (get_user_id_from_context o auth) _ w (λ id k.
        bound-Handled o body _ w (λ req e.
          answer-Handled o _ (change_password-atomic o l s id req request_context refl w)
            (λ resp t' p. (id, req, resp, k, e, p, refl))))

  -- `DELETE /auth/me` either answers 200, clears the cookies and has removed the authenticated account
  -- and its sessions, or answers an error without cookies and leaves the database as it was.
  pub handle_delete_account-Handled :
      (auth : AuthContext) (w : World)
      → Handled o
          (AccountDeleted o s h auth (views w).committed)
          (views w).committed
          (handle_delete_account o s h auth w)
  unfolding handle_delete_account
  handle_delete_account-Handled auth w =
      identified-Handled o (get_user_id_from_context o auth) _ w (λ id k.
        answer-Handled o _ (delete_account-atomic o l s id request_context w refl)
          (λ _ t' p. (id, k, p, refl)))

  -- `POST /auth/login` either answers 200, with a live user that has the email and the password in
  -- the body and the cookies of the one session that has been added, or answers an error without
  -- cookies and leaves the database as it was.
  pub handle_login-Handled :
      (body : Result Error LoginRequest) (w : World)
      → Handled o
          (LoggedIn o s h body (views w).committed)
          (views w).committed
          (handle_login o s h body w)
  unfolding handle_login
  handle_login-Handled body w = bound-Handled o body _ w (λ req e.
      answer-Handled o _
        (Returns-mono (login-authenticates o l s req request_context refl w) (λ _ _ p. p)
          (λ _ _ q. ap (λ (u : Views). u.committed) q))
        (λ resp t' p. (req, resp, e, p, refl)))

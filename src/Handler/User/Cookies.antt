-- ===== src/Handler/User/Cookies.antt =====
-- The two handlers that end or replace a session by its cookies.
use clean_arch_go_gin.Base.{ℕ, String, ◌≡◌, refl, ap, Option, none, some, reject}
use clean_arch_go_gin.Base.Effect.{Result, ok, err, Returns, returned, failed, Returns-mono}
use clean_arch_go_gin.Apperr.{Error}
use clean_arch_go_gin.Database.{Tables, Views}
use clean_arch_go_gin.Outside.{Outside}
use clean_arch_go_gin.Outside.Laws.{Laws}
use clean_arch_go_gin.Repository.RefreshToken.{owned_by}
use clean_arch_go_gin.Response.{RefreshResponse}
use clean_arch_go_gin.Service.User.Tokens.{UserService, revoke_refresh_tokens}
use clean_arch_go_gin.Service.User.Tokens.Laws.{revoke_refresh_tokens-Writes}
use clean_arch_go_gin.Service.User.Session.Laws.{
  checked_at, IsRotated, Refused, Ends, refresh-rotates,
}
use clean_arch_go_gin.Middleware.Auth.{AuthContext, get_user_id_from_context}
use clean_arch_go_gin.Handler.Respond.{Payload, Reply, ok_reply, fail}
use clean_arch_go_gin.Handler.User.{
  CookieConfig, set_auth_cookies, clear_auth_cookies, request_context, answer, handle_refresh,
  handle_logout,
}
use clean_arch_go_gin.Handler.User.Laws.{IsRefusal, fail-IsRefusal}

module _ (o : Outside) (s : UserService) (h : CookieConfig) (cookie : Option String) where
  -- How a request to refresh may be answered, begun in the world `w`.
  pub data Refreshed (w : o.World) : Reply → Tables → Type 0 where
    rotated :
        {t' : Tables} (token : String) (resp : RefreshResponse)
        → cookie ≡ some token
        → IsRotated o s token
            (checked_at o s token request_context w)
            (resp.access_token, resp.refresh_token)
            (o.views w).committed
            t'
        → Refreshed w
            (ok_reply 200 "Token refreshed" Payload.no_data
              (set_auth_cookies h resp.access_token resp.refresh_token))
            t'
    rejected :
        {t' : Tables} (token : String) (e : Error)
        → cookie ≡ some token
        → Refused o s token (checked_at o s token request_context w) (o.views w).committed e t'
        → Refreshed w (fail e) t'
    no_cookie :
        {reply : Reply} {t' : Tables}
        → cookie ≡ none
        → IsRefusal reply
        → t' ≡ (o.views w).committed
        → Refreshed w reply t'

-- What a logout begun in the world `w` leaves of the tables `t`, by the user whom the request
-- identifies: no session of that user, or everything where the revocation fails or where nobody is
-- identified.
pub data LoggedOut (o : Outside) (s : UserService) (w : o.World)
    : Result Error ℕ → Tables → Tables → Type 0 where
  ended :
      {user_id : ℕ} {t t' : Tables}
      → t' ≡ record t { tokens = reject (owned_by user_id) t.tokens }
      → LoggedOut o s w (ok user_id) t t'
  not_revoked :
      {user_id : ℕ} {e : Error} {t t' : Tables}
      → (revoke_refresh_tokens o s request_context user_id w).0 ≡ err e
      → t' ≡ t
      → LoggedOut o s w (ok user_id) t t'
  unidentified : {e : Error} {t t' : Tables} → t' ≡ t → LoggedOut o s w (err e) t t'

module _ (o : Outside) (l : Laws o) (s : UserService) (h : CookieConfig) where
  open o use {World, views}

  answer-Refreshed :
      (token : String) (w : World) {r : Result Error RefreshResponse × World}
      → Ends o l s token (checked_at o s token request_context w) (views w).committed r
      → Refreshed o s h
          (some token)
          w
          (answer
            (λ resp.
              ok_reply 200 "Token refreshed" Payload.no_data
                (set_auth_cookies h resp.access_token resp.refresh_token))
            r).0
          (views
            (answer
              (λ (resp : RefreshResponse).
                ok_reply 200 "Token refreshed" Payload.no_data
                  (set_auth_cookies h resp.access_token resp.refresh_token))
              r).1).committed
  unfolding answer
  answer-Refreshed token w (returned p) = rotated token _ refl p
  answer-Refreshed token w (failed q) = rejected token _ refl q

  -- `POST /auth/refresh` answers 200 with the cookies of the new pair where the presented token has been
  -- rotated; where the refresh is refused it answers that error and sets no cookie, and without a
  -- cookie it is refused and the database is as before.
  pub handle_refresh-Refreshed :
      (cookie : Option String) (w : World)
      → Refreshed o s h cookie w
          (handle_refresh o s h cookie w).0
          (views (handle_refresh o s h cookie w).1).committed
  unfolding handle_refresh
  handle_refresh-Refreshed none w = no_cookie refl (fail-IsRefusal _) refl
  handle_refresh-Refreshed (some token) w =
      answer-Refreshed token w (refresh-rotates o l s token request_context refl w)

  revoked :
      (id : ℕ) (w : World) (r : Result Error (Unit {0}) × World)
      → revoke_refresh_tokens o s request_context id w ≡ r
      → Returns
          (λ _ w'. (views w').committed ≡ record ((views w).committed) {
            tokens = reject (owned_by id) (views w).committed.tokens;
          })
          (λ _ w'. (views w').committed ≡ (views w).committed)
          r
      → LoggedOut o s w (ok id) (views w).committed (views r.1).committed
  revoked id w (ok _, w') ends (returned p) = ended p
  revoked id w (err e, w') ends (failed q) = not_revoked (ap (λ x. x.0) ends) q

  logged_out :
      (id : Result Error ℕ) (w : World)
      → LoggedOut o s w id
          (views w).committed
          (views (elim id [
            | ok user_id ↦ (revoke_refresh_tokens o s request_context user_id w).1
            | err _ ↦ w
          ])).committed
  logged_out (ok id) w = revoked id w (revoke_refresh_tokens o s request_context id w) refl (
      Returns-mono (revoke_refresh_tokens-Writes o l s request_context w _ refl id)
        (λ _ _ p. ap (λ (u : Views). u.committed) p) (λ _ _ q. ap (λ (u : Views). u.committed) q))
  logged_out (err e) w = unidentified refl

  -- `POST /auth/logout` always answers 200 and clears the cookies. If the request identifies a user,
  -- every session of that user has ended, and nobody else's, or the revocation has returned an error
  -- and nothing has changed; if it identifies nobody, nothing has changed.
  pub handle_logout-LoggedOut :
      (auth : AuthContext) (w : World)
      → ((handle_logout o s h auth w).0
          ≡ ok_reply 200 "Logged out successfully" Payload.no_data (clear_auth_cookies h))
        × LoggedOut o s w
            (get_user_id_from_context o auth)
            (views w).committed
            (views (handle_logout o s h auth w).1).committed
  unfolding handle_logout
  handle_logout-LoggedOut auth w = (refl, logged_out (get_user_id_from_context o auth) w)

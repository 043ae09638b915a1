-- ===== src/Handler/Resource.antt =====
-- counter.go, message.go and pagination.go of internal/api/handler, and the two handlers of user.go
-- that only read: the list of sessions and the CSRF token.
use clean_arch_go_gin.Base.{String, none, some, [], ◌∷◌}
use clean_arch_go_gin.Base.Effect.{Result, ok, err}
use clean_arch_go_gin.Apperr.{
  Error, Sentinel, to_error, sentinel, with_cause, with_fields, internal,
}
use clean_arch_go_gin.Outside.{Outside}
use clean_arch_go_gin.Request.{Pagination, normalized}
use clean_arch_go_gin.Service.Counter
use clean_arch_go_gin.Service.Csrf.{Sources, CsrfService, generate_token}
use clean_arch_go_gin.Service.User.Tokens.{UserService}
use clean_arch_go_gin.Service.User.Session.{list_sessions}
use clean_arch_go_gin.Middleware.Auth.{AuthContext, get_user_id_from_context}
use clean_arch_go_gin.Handler.Respond.{
  Payload, Reply, ok_reply, ok_with_meta, fail, validation_errors, validation_fields,
}
use clean_arch_go_gin.Handler.User.{request_context, answer, identified}

-- The error that `BindPagination` answers with when `ShouldBindQuery` returns `e`.
abbrev pub pagination_error : Error → Error
pagination_error e = elim (validation_errors e) [
  | some errs ↦
      to_error
        (with_cause (with_fields (sentinel Sentinel.err_validation) (validation_fields errs)) e)
  | none ↦ to_error (
      with_cause
        (with_fields (sentinel Sentinel.err_validation) (
          ("page", "Must be a positive whole number")
          ∷ ("limit", "Must be a whole number between 1 and 100")
          ∷ []))
        e)
]

-- `BindPagination`, from the outcome of reading the query.
unfoldable pub bind_pagination :
    {W : Type 0} → Result Error Pagination → (Pagination → W → Reply × W) → W → Reply × W
bind_pagination (ok page) run w = run (normalized page) w
bind_pagination (err e) run w = (fail (pagination_error e), w)

module _ (o : Outside) where
  open o use {World}

  pub handle_get_counter : World → Reply × World
  handle_get_counter w =
      answer (λ value. ok_reply 200 "Counter retrieved" (Payload.counted value) [])
        (Counter.get_counter o request_context w)

  pub handle_increment_counter : World → Reply × World
  handle_increment_counter w =
      answer (λ value. ok_reply 200 "Counter incremented" (Payload.counted value) [])
        (Counter.increment_counter o request_context w)

  pub handle_get_message : World → Reply × World
  handle_get_message w =
      answer (λ m. ok_reply 200 "Message retrieved" (Payload.content m) [])
        (Counter.get_message o request_context w)

  -- The refresh cookie is "" when it is missing.
  pub handle_list_sessions :
      UserService → AuthContext → Result Error Pagination → String → World → Reply × World
  handle_list_sessions s auth query cookie = identified (get_user_id_from_context o auth) (λ id.
      bind_pagination query (λ page w.
        answer
          (λ list. ok_with_meta 200 "Sessions retrieved" (Payload.sessions list.sessions) list.meta)
          (list_sessions o s id cookie page request_context w)))

module _ {W : Type 0} (sources : Sources W) (s : CsrfService) where
  abbrev csrf_answer : Result Error String × W → Reply × W
  csrf_answer (ok token, w) = (ok_reply 200 "CSRF token generated" (Payload.token token) [], w)
  csrf_answer (err e, w) = (fail (internal e), w)

  pub handle_get_csrf_token : W → Reply × W
  handle_get_csrf_token w = csrf_answer (generate_token sources s w)

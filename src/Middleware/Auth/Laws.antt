-- ===== src/Middleware/Auth/Laws.antt =====
-- Who passes the authentication and the CSRF middleware.
use clean_arch_go_gin.Base.{
  String, ◌≡◌, ◌≢◌, ◌⊎◌, inl, inr, refl, Bool, true, false, Option, none, some, str_eq, str_eq_iff,
  Bool-cases, arith,
}
use clean_arch_go_gin.Base.Effect.{Result, ok, err}
use clean_arch_go_gin.Apperr.{Error, Sentinel, message_of}
use clean_arch_go_gin.Outside.{Outside}
use clean_arch_go_gin.Outside.Laws.{Laws}
use clean_arch_go_gin.Service.Token.Claims.{TokenClaims}
use clean_arch_go_gin.Service.Token.{TokenConfig, validate_access_token}
use clean_arch_go_gin.Middleware.Auth.{
  AuthContext, Next, set_auth_context, admit, auth_middleware, get_user_id_from_context,
  get_email_from_context, get_claims_from_context, is_unsafe, csrf_middleware,
}

module _ (o : Outside) (config : TokenConfig) (cookie : Option String) (w : o.World) where
  -- The request has a token that validates, and the handlers behind read its claims.
  pub record IsAuthenticated (ctx : AuthContext) : Type 0 where
    pub token : String
    pub carried : cookie ≡ some token
    pub claims : TokenClaims
    pub valid : (validate_access_token o config token w).0 ≡ ok claims
    pub user : get_user_id_from_context o ctx ≡ ok claims.user_id
    pub email : get_email_from_context ctx ≡ claims.email
    pub same_claims : get_claims_from_context ctx ≡ some claims

  pub data Decided : Next → Type 0 where
    authenticated : {ctx : AuthContext} → IsAuthenticated ctx → Decided (Next.passed ctx)
    no_cookie :
        cookie ≡ none → Decided (Next.aborted 401 (message_of Sentinel.err_missing_access_token))
    invalid :
        {token : String} {e : Error}
        → cookie ≡ some token
        → (validate_access_token o config token w).0 ≡ err e
        → Decided (Next.aborted 401 (message_of Sentinel.err_invalid_access_token))

module _ (o : Outside) (l : Laws o) (config : TokenConfig) (w : o.World) where
  user_read :
      (claims : TokenClaims)
      → get_user_id_from_context o (set_auth_context o claims) ≡ ok claims.user_id
  unfolding get_user_id_from_context set_auth_context
  user_read claims = rw (l.parse_uuid_law claims.user_id) refl

  admit-Decided :
      (token : String) (r : Result Error TokenClaims × o.World)
      → (validate_access_token o config token w).0 ≡ r.0
      → Decided o config
          (some token)
          w
          (admit o (Next.aborted 401 (message_of Sentinel.err_invalid_access_token)) r).0
  unfolding set_auth_context
  admit-Decided token (ok claims, w') e = authenticated (record {
    token = token;
    carried = refl;
    claims = claims;
    valid = e;
    user = user_read claims;
    email = refl;
    same_claims = refl;
  })
  admit-Decided token (err x, w') e = invalid refl e

  -- The middleware lets a request pass just when its cookie holds a token that validates with the
  -- access secret, and then the handlers read the user id, the email and the claims of that token;
  -- any other request is answered with 401.
  pub auth_middleware-decides :
      (cookie : Option String) → Decided o config cookie w (auth_middleware o config cookie w).0
  unfolding auth_middleware
  auth_middleware-decides none = no_cookie refl
  auth_middleware-decides (some token) =
      admit-Decided token (validate_access_token o config token w) refl

-- A request that passes the CSRF middleware either has a safe method or carries a token that the CSRF
-- service accepts, and one that does not pass has an unsafe method and is answered with 403.
pub csrf_middleware-guards :
    (validate_token : String → Bool) (method header : String) (ctx : AuthContext)
    → ((csrf_middleware validate_token method header ctx ≡ Next.passed ctx)
        × ((is_unsafe method ≡ false) ⊎ ((header ≢ "") × (validate_token header ≡ true))))
      ⊎ ((is_unsafe method ≡ true)
          × ((header ≡ "") ⊎ (validate_token header ≡ false))
          × ((csrf_middleware validate_token method header ctx
                ≡ Next.aborted 403 (message_of Sentinel.err_missing_csrf_token))
              ⊎ (csrf_middleware validate_token method header ctx
                  ≡ Next.aborted 403 (message_of Sentinel.err_invalid_csrf_token))))
unfolding csrf_middleware
csrf_middleware-guards validate_token method header ctx = elim (Bool-cases (is_unsafe method)) [
  | inr safe ↦ inl (rw safe refl, inl safe)
  | inl unsafe ↦ elim (Bool-cases (str_eq header "")) [
    | inl missing ↦
        inr (unsafe, inl ((str_eq_iff header "").0 missing), inl (rw unsafe (rw missing refl)))
    | inr present ↦ elim (Bool-cases (validate_token header)) [
      | inl valid ↦ inl (
        rw unsafe (rw present (rw valid refl)),
        inr (λ e. ground (arith, (str_eq_iff header "").1 e), valid),
      )
      | inr bad ↦ inr (unsafe, inr bad, inr (rw unsafe (rw present (rw bad refl))))
    ]
  ]
]

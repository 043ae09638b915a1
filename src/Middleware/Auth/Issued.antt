-- ===== src/Middleware/Auth/Issued.antt =====
-- Which of the tokens that the service issues AuthMiddleware accepts.
use clean_arch_go_gin.Base.{
  ℕ, String, ◌≡◌, ◌≢◌, refl, ap, ◌∙◌, Bool, true, some, str_eq, str_eq_iff, Bool-cases, inl, inr,
}
use clean_arch_go_gin.Base.Int.{ℤ, ◌+ℤ◌, ◌<ℤ◌}
use clean_arch_go_gin.Base.Effect.{Result, ok, err, continue}
use clean_arch_go_gin.Apperr.{Error, Sentinel, message_of}
use clean_arch_go_gin.Outside.{Outside}
use clean_arch_go_gin.Service.Token.Claims.{TokenClaims}
use clean_arch_go_gin.Service.Token.{
  TokenConfig, issuer, key_for, generate_access_token, generate_refresh_token,
  validate_access_token,
}
use clean_arch_go_gin.Middleware.Auth.{
  AuthContext, Next, admit, set_auth_context, auth_middleware, get_user_id_from_context,
  get_email_from_context,
}

module _ (o : Outside) where
  open o use {World, sign, parse_with_claims}

  -- What golang-jwt and google/uuid document, with the clock that the parser reads: a token that has
  -- not expired is parsed with the key that signed it; no other key verifies a token (what a
  -- signature is for, taken as if forgeries did not exist); a token is not empty; and a UUID is read
  -- back from its text.
  pub record Jwt (clock : World → ℤ) : Type 0 where
    pub verifies :
        (secret token : String) (c : TokenClaims) (key : Bool → Result Error String) (w : World)
        → sign secret c ≡ ok token
        → key true ≡ ok secret
        → clock w <ℤ c.expires_at
        → (parse_with_claims token key w).0 ≡ ok c
    pub refuses :
        (secret other token : String) (c : TokenClaims) (key : Bool → Result Error String)
        (w : World)
        → sign secret c ≡ ok token
        → key true ≡ ok other
        → other ≢ secret
        → (e : Error) × ((parse_with_claims token key w).0 ≡ err e)
    pub token_not_empty :
        (secret token : String) (c : TokenClaims) → sign secret c ≡ ok token → token ≢ ""
    pub reads_uuid : (id : ℕ) → o.parse_uuid (o.uuid_string id) ≡ ok id

  module _ (clock : World → ℤ) (j : Jwt clock) (config : TokenConfig) where
    validated :
        (token : String) (w : World)
        → token ≢ ""
        → validate_access_token o config token w
          ≡ parse_with_claims token (key_for o config config.access_token_secret) w
    unfolding validate_access_token
    validated token w h = elim (Bool-cases (str_eq token "")) [
      | inl blank ↦ absurd (h ((str_eq_iff token "").0 blank))
      | inr given ↦ rw given refl
    ]

    admit-ok :
        (n : Next) (r : Result Error TokenClaims × World) (c : TokenClaims)
        → r.0 ≡ ok c
        → (admit o n r).0 ≡ Next.passed (set_auth_context o c)
    admit-ok n (ok c', w) c e = cc
    admit-ok n (err x, w) c e = absurd (cc)

    admit-err :
        (n : Next) (r : Result Error TokenClaims × World) (x : Error)
        → r.0 ≡ err x
        → (admit o n r).0 ≡ n
    admit-err n (ok c', w) x e = absurd (cc)
    admit-err n (err x', w) x e = refl

    -- The request passes, and the handlers read the user.
    pub record IsLetIn (user_id : ℕ) (email : String) (n : Next) : Type 0 where
      pub context : AuthContext
      pub passes : n ≡ Next.passed context
      pub user : get_user_id_from_context o context ≡ ok user_id
      pub reads_email : get_email_from_context context ≡ email

    -- Under the Jwt hypotheses, a request with an access token that was issued to a user passes
    -- AuthMiddleware while the time is before the token's expiry, which is the access lifetime after
    -- the time of its issue (as a NumericDate), and the handlers read the user's id and email.
    pub auth_middleware-generate_access_token :
        (user_id : ℕ) (email name token : String) (w w' v : World)
        → generate_access_token o config user_id email name w ≡ (ok token, w')
        → clock v <ℤ o.numeric_date ((o.now w).0 +ℤ config.access_token_expiry)
        → IsLetIn user_id email (auth_middleware o config (some token) v).0
    unfolding generate_access_token continue auth_middleware get_user_id_from_context
        set_auth_context
    auth_middleware-generate_access_token user_id email name token w w' v e early =
        let signed = ap (λ (r : Result Error String × World). r.0) e in
        let r = validate_access_token o config token v in
        let c : TokenClaims = record {
          user_id = user_id;
          email = email;
          name = name;
          jti = "";
          expires_at = o.numeric_date ((o.now w).0 +ℤ config.access_token_expiry);
          issued_at = o.numeric_date (o.now (o.now w).1).0;
          issuer = issuer;
        } in
        let read =
          ap (λ (x : Result Error TokenClaims × World). x.0)
            (validated token v (j.token_not_empty _ _ c signed))
          ∙ j.verifies _ token c (key_for o config config.access_token_secret) v signed refl
              early in
        record {
          context = set_auth_context o c;
          passes = admit-ok _ r c read;
          user = rw (j.reads_uuid user_id) refl;
          reads_email = refl;
        }

    -- Under the Jwt hypotheses and if the two secrets differ, AuthMiddleware answers a request that
    -- carries an issued refresh token with 401.
    pub auth_middleware-generate_refresh_token :
        (user_id : ℕ) (token : String) (w w' v : World)
        → config.access_token_secret ≢ config.refresh_token_secret
        → generate_refresh_token o config user_id w ≡ (ok token, w')
        → (auth_middleware o config (some token) v).0
          ≡ Next.aborted 401 (message_of Sentinel.err_invalid_access_token)
    unfolding generate_refresh_token continue auth_middleware
    auth_middleware-generate_refresh_token user_id token w w' v differ e =
        let signed = ap (λ (r : Result Error String × World). r.0) e in
        let refused =
          j.refuses _ config.access_token_secret token _
            (key_for o config config.access_token_secret) v signed refl differ in
        admit-err _ (validate_access_token o config token v) refused.0 (
          ap (λ (r : Result Error TokenClaims × World). r.0)
            (validated token v (j.token_not_empty _ _ _ signed))
          ∙ refused.1)

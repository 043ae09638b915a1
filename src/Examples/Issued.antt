-- ===== src/Examples/Issued.antt =====
-- Tokens of one issue of each kind, under a signer that knows only these two.
use clean_arch_go_gin.Base.{
  String, ◌≡◌, ◌≢◌, ◌⊎◌, inl, inr, refl, sym, ap, ◌∙◌, subst, Bool, true, false, ◌&&◌, some, str_eq,
  str_eq_iff, eq_iff, ◌==◌, ==_iff, if◌then◌else◌, Bool-cases, arith,
}
use clean_arch_go_gin.Base.Int.{ℤ, pos, ◌+ℤ◌, ◌<ℤ◌, ltb_ℤ, eqb_ℤ, eq_of_parts, +ℤ_parts}
use clean_arch_go_gin.Base.Effect.{Result, ok, err, continue}
use clean_arch_go_gin.Apperr.{Error, Sentinel, message_of}
use clean_arch_go_gin.Outside.{Outside}
use clean_arch_go_gin.Outside.Memory.{Memory, in_memory}
use clean_arch_go_gin.Outside.Memory.Laws.{in_memory-Laws}
use clean_arch_go_gin.Service.Token.Claims.{TokenClaims}
use clean_arch_go_gin.Service.Token.{issuer, generate_access_token, generate_refresh_token}
use clean_arch_go_gin.Middleware.Auth.{Next, auth_middleware}
use clean_arch_go_gin.Middleware.Auth.Issued.{
  Jwt, IsLetIn, auth_middleware-generate_access_token, auth_middleware-generate_refresh_token,
}
use clean_arch_go_gin.Examples.Requests.{config, world}

abbrev access : TokenClaims
access = record {
  user_id = 7;
  email = "alice@example.org";
  name = "Alice";
  jti = "";
  expires_at = pos 1900;
  issued_at = pos 1001;
  issuer = issuer;
}

abbrev refresh : TokenClaims
refresh = record {
  user_id = 7;
  email = "";
  name = "";
  jti = in_memory.uuid_string 500;
  expires_at = pos 605800;
  issued_at = pos 1000;
  issuer = issuer;
}

abbrev same_claims : TokenClaims → TokenClaims → Bool
same_claims c d =
    c.user_id == d.user_id
    && str_eq c.email d.email
    && str_eq c.name d.name
    && str_eq c.jti d.jti
    && eqb_ℤ c.expires_at d.expires_at
    && eqb_ℤ c.issued_at d.issued_at
    && str_eq c.issuer d.issuer

same_claims-eq : (c d : TokenClaims) → same_claims c d ≡ true → c ≡ d
same_claims-eq c d e = λ i. record {
  user_id = (==_iff c.user_id d.user_id).0 (ground (arith, e)) i;
  email = (str_eq_iff c.email d.email).0 (ground (arith, e)) i;
  name = (str_eq_iff c.name d.name).0 (ground (arith, e)) i;
  jti = (str_eq_iff c.jti d.jti).0 (ground (arith, e)) i;
  expires_at = eq_of_parts c.expires_at d.expires_at (ground (arith, e)) i;
  issued_at = eq_of_parts c.issued_at d.issued_at (ground (arith, e)) i;
  issuer = (str_eq_iff c.issuer d.issuer).0 (ground (arith, e)) i;
}

abbrev sign : String → TokenClaims → Result Error String
sign key c =
    if str_eq key "access" && same_claims c access
    then ok "access token"
    else if str_eq key "refresh" && same_claims c refresh
    then ok "refresh token"
    else err (Error.plain "unknown claims")

abbrev unexpired : ℤ → TokenClaims → Result Error TokenClaims
unexpired now c = if ltb_ℤ now c.expires_at then ok c else err (Error.plain "token is expired")

abbrev read : String → Result Error String → ℤ → Result Error TokenClaims
read token (err e) now = err e
read token (ok key) now =
    if str_eq token "access token" && str_eq key "access"
    then unexpired now access
    else if str_eq token "refresh token" && str_eq key "refresh"
    then unexpired now refresh
    else err (Error.plain "signature is invalid")

abbrev issuing : Outside
issuing = record in_memory {
  sign = sign;
  parse_with_claims = λ token key m. (read token (key true) (pos m.clock), m);
}

-- What signing has issued.
abbrev Issued : String → TokenClaims → String → TokenClaims → String → String → Type 0
Issued key c token claims known text = (key ≡ known) × (c ≡ claims) × (token ≡ text)

sign-Issued :
    (key token : String) (c : TokenClaims)
    → sign key c ≡ ok token
    → Issued key c token access "access" "access token"
      ⊎ Issued key c token refresh "refresh" "refresh token"
sign-Issued key token c e = elim (Bool-cases (str_eq key "access" && same_claims c access)) [
  | inl first ↦ inl (
    (str_eq_iff key "access").0 (ground (arith, first)),
    same_claims-eq c access (ground (arith, first)),
    ground (arith, e, first),
  )
  | inr other ↦ elim (Bool-cases (str_eq key "refresh" && same_claims c refresh)) [
    | inl second ↦ inr (
      (str_eq_iff key "refresh").0 (ground (arith, second)),
      same_claims-eq c refresh (ground (arith, second)),
      ground (arith, e, other, second),
    )
    | inr neither ↦ absurd (ground (arith, e, other, neither))
  ]
]

before_expiry : (now : ℤ) (c : TokenClaims) → now <ℤ c.expires_at → unexpired now c ≡ ok c
before_expiry now c h = ground (arith, h)

-- With its own key a token is read, and with another it is not.
read-own :
    (token key : String) (given : Result Error String) (now : ℤ) (c : TokenClaims)
    → sign key c ≡ ok token
    → given ≡ ok key
    → now <ℤ c.expires_at
    → read token given now ≡ ok c
read-own token key given now c signed e early = elim (sign-Issued key token c signed) [
  | inl (ek, ec, et) ↦
      (λ i. read (et i) ((e ∙ ap ok ek) i) now)
      ∙ before_expiry now access (subst (λ (d : TokenClaims). now <ℤ d.expires_at) ec early)
      ∙ ap ok (sym ec)
  | inr (ek, ec, et) ↦
      (λ i. read (et i) ((e ∙ ap ok ek) i) now)
      ∙ before_expiry now refresh (subst (λ (d : TokenClaims). now <ℤ d.expires_at) ec early)
      ∙ ap ok (sym ec)
]

str_neq : (s t : String) → s ≢ t → str_eq s t ≡ false
str_neq s t h = ground (arith, h, (str_eq_iff s t).0)

read-other :
    (token key other : String) (given : Result Error String) (now : ℤ) (c : TokenClaims)
    → sign key c ≡ ok token
    → given ≡ ok other
    → other ≢ key
    → (x : Error) × (read token given now ≡ err x)
read-other token key other given now c signed e differ = elim (sign-Issued key token c signed) [
  | inl (ek, _, et) ↦
      let bad = str_neq other "access" (λ h. differ (h ∙ sym ek)) in
      (Error.plain "signature is invalid", (λ i. read (et i) (e i) now) ∙ rw bad refl)
  | inr (ek, _, et) ↦
      let bad = str_neq other "refresh" (λ h. differ (h ∙ sym ek)) in
      (Error.plain "signature is invalid", (λ i. read (et i) (e i) now) ∙ rw bad refl)
]

issued_not_empty : (key token : String) (c : TokenClaims) → sign key c ≡ ok token → token ≢ ""
issued_not_empty key token c signed h = elim (sign-Issued key token c signed) [
  | inl (_, _, et) ↦ ground (arith, (eq_iff "access token" "").1 (sym et ∙ h))
  | inr (_, _, et) ↦ ground (arith, (eq_iff "refresh token" "").1 (sym et ∙ h))
]

issuing-Jwt : Jwt issuing (λ m. pos m.clock)
issuing-Jwt = record {
  verifies = λ key token c f m signed given early.
      read-own token key (f true) (pos m.clock) c signed given early;
  refuses = λ key other token c f m signed given differ.
      read-other token key other (f true) (pos m.clock) c signed given differ;
  token_not_empty = issued_not_empty;
  reads_uuid = in_memory-Laws.parse_uuid_law;
}

abbrev issued : Result Error String × Memory
issued = generate_access_token issuing config 7 "alice@example.org" "Alice" world

issues_access : issued ≡ (ok "access token", issued.1)
unfolding generate_access_token continue ◌+ℤ◌
issues_access = refl

auth_middleware-generate_access_token_example :
    IsLetIn issuing
      (λ m. pos m.clock)
      issuing-Jwt
      config
      7
      "alice@example.org"
      (auth_middleware issuing config (some "access token") world).0
auth_middleware-generate_access_token_example =
    auth_middleware-generate_access_token issuing (λ m. pos m.clock) issuing-Jwt config 7
      "alice@example.org" "Alice" "access token" world issued.1 world issues_access
      (omega (arith, +ℤ_parts (pos 1000) (pos 900)))

abbrev renewed : Result Error String × Memory
renewed = generate_refresh_token issuing config 7 world

issues_refresh : renewed ≡ (ok "refresh token", renewed.1)
unfolding generate_refresh_token continue ◌+ℤ◌
issues_refresh = refl

different_secrets : config.access_token_secret ≢ config.refresh_token_secret
different_secrets h = ground (arith, (eq_iff "access" "refresh").1 h)

auth_middleware-generate_refresh_token_example :
    (auth_middleware issuing config (some "refresh token") world).0
    ≡ Next.aborted 401 (message_of Sentinel.err_invalid_access_token)
auth_middleware-generate_refresh_token_example =
    auth_middleware-generate_refresh_token issuing (λ m. pos m.clock) issuing-Jwt config 7
      "refresh token" world renewed.1 world different_secrets issues_refresh

-- ===== src/Di/Wiring/Laws.antt =====
-- What an accepted configuration means for the services that are built from it.
use Prim.Native.String.{len}
use clean_arch_go_gin.Base.{
  String, ◌≡◌, ◌≢◌, ◌≤◌, refl, sym, ap, ◌∙◌, subst, inl, inr, Bool, true, false, not, some, [],
  str_eq, str_eq_iff, Bool-cases, arith,
}
use clean_arch_go_gin.Base.Int.{◌<ℤ◌}
use clean_arch_go_gin.Platform.Config.{Process, Config}
use clean_arch_go_gin.Platform.Validate.{is_loopback_host, validate}
use clean_arch_go_gin.Platform.Validate.Laws.{validate-IsSound}
use clean_arch_go_gin.Observability.{AdminConfig, AdminServer}
use clean_arch_go_gin.Observability.Laws.{
  serves, IsServing, IsServing-profile, Listening, present, new_admin_server-Listening,
}
use clean_arch_go_gin.Di.Wiring.{
  or_default, token_config, csrf_service, cookie_config, admin_config, admin_server,
}

or_default_kept : (s t : String) → s ≢ "" → or_default s t ≡ s
or_default_kept s t h = elim (Bool-cases (str_eq s "")) [
  | inl blank ↦ absurd (h ((str_eq_iff s "").0 blank))
  | inr given ↦ rw given refl
]

long_not_blank : (s : String) → 32 ≤ len s → s ≢ ""
long_not_blank s h e = let short : 32 ≤ len "" = subst (λ t. 32 ≤ len t) e h in omega (arith, short)

Listening-IsServing :
    {c : AdminConfig} {b : Bool} {s : AdminServer} → Listening c b (some s) → IsServing c b s
Listening-IsServing (present _ serving) = serving

module _ (p : Process) (c : Config p) where
  -- The secrets that sign, the cookies and the listener for profiles, outside of development mode.
  pub record IsSecure : Type 0 where
    pub access_secret : (token_config p c).access_token_secret ≡ c.auth.jwt_access_secret
    pub refresh_secret : (token_config p c).refresh_token_secret ≡ c.auth.jwt_refresh_secret
    pub csrf_secret : (csrf_service p c).secret ≡ c.auth.csrf_secret
    pub different : (token_config p c).access_token_secret ≢ (token_config p c).refresh_token_secret
    pub long_enough :
        (32 ≤ len (token_config p c).access_token_secret)
        × (32 ≤ len (token_config p c).refresh_token_secret)
        × (32 ≤ len (csrf_service p c).secret)
    pub shorter_access :
        (token_config p c).access_token_expiry <ℤ (token_config p c).refresh_token_expiry
    pub secure_cookies : (cookie_config p c).secure ≡ true
    pub profiles_on_loopback :
        (s : AdminServer)
        → admin_server p c ≡ some s
        → serves "/debug/pprof/profile" s.paths ≡ true
        → is_loopback_host p s.address.0 ≡ true

  -- A container that `NewContainer` builds outside of development mode signs with the secrets of the
  -- configuration and with none of the development fallbacks; the two token secrets differ, all
  -- three have at least 32 bytes, access tokens expire sooner than refresh tokens, the cookies are
  -- Secure, and profiles are served on a loopback host only.
  pub wiring-IsSecure : validate p c ≡ [] → c.auth.dev_mode ≡ false → IsSecure
  wiring-IsSecure e deployed =
      let (sound, deployable) = validate-IsSound p c e in
      let d = deployable deployed in
      let access = or_default_kept c.auth.jwt_access_secret _ (long_not_blank _ d.secrets.0) in
      let refresh = or_default_kept c.auth.jwt_refresh_secret _ (long_not_blank _ d.secrets.1) in
      let csrf = or_default_kept c.auth.csrf_secret _ (long_not_blank _ d.secrets.2) in
      record {
        access_secret = access;
        refresh_secret = refresh;
        csrf_secret = csrf;
        different = λ same. d.different (sym access ∙ same ∙ refresh);
        long_enough = (
          subst (λ s. 32 ≤ len s) (sym access) d.secrets.0,
          subst (λ s. 32 ≤ len s) (sym refresh) d.secrets.1,
          subst (λ s. 32 ≤ len s) (sym csrf) d.secrets.2,
        );
        shorter_access = sound.lifetimes.1;
        secure_cookies = ap not deployed;
        profiles_on_loopback = λ s there profiles.
            let serving = Listening-IsServing (
              subst (Listening (admin_config p c) c.observability.metrics_enabled) there
                (new_admin_server-Listening (admin_config p c) c.observability.metrics_enabled)) in
            elim serving.host [
              | inl (_, host) ↦ subst (λ h. is_loopback_host p h ≡ true) (sym host) refl
              | inr (_, host) ↦
                  subst (λ h. is_loopback_host p h ≡ true) (sym host)
                    (d.profiling (sym (IsServing-profile serving) ∙ profiles))
            ];
      }

-- ===== src/Service/Token.antt =====
-- internal/service/token. Signing, parsing and SHA-256 are the libraries'.
pub mod Claims
pub mod Laws
use Prim.Native.Char.{Char}
use Prim.Native.String.{String, [], ◌∷◌}
use mathlib.Core.List
use clean_arch_go_gin.Base.{
  ℕ, ◌/◌, ◌%◌, ◌+◌, Bool, true, false, List, str_eq, if◌then◌else◌, ltb, ◌==◌,
}
unfoldable pub use clean_arch_go_gin.Base.Hex.{hex_encode}
use clean_arch_go_gin.Base.Int.{ℤ, ◌+ℤ◌}
use clean_arch_go_gin.Base.Effect.{Result, ok, err, M, pure, raise, ◌>>=◌}
use clean_arch_go_gin.Apperr.{Error}
use clean_arch_go_gin.Outside.{Outside}
use clean_arch_go_gin.Service.Token.Claims.{TokenClaims}

pub record TokenConfig : Type 0 where
  pub access_token_secret : String
  pub access_token_expiry : ℤ
  pub refresh_token_secret : String
  pub refresh_token_expiry : ℤ

abbrev pub issuer : String
issuer = "go-vite-react"

module _ (o : Outside) where
  open o use {World}

  -- A call of a library that cannot fail.
  abbrev pub lift : {A : Type 0} → (World → A × World) → M World Error A
  lift f w = let (a, w') = f w in (ok a, w')

  -- `token.Hash`
  unfoldable pub hash : String → String
  unfolding hex_encode
  hash token = hex_encode (o.sum256 token)

  module _ (config : TokenConfig) where
    -- `time.Now` is called once for the expiry and once for the issue time.
    unfoldable pub generate_access_token : ℕ → String → String → M World Error String
    generate_access_token user_id email name = do
      expiry_base ← lift o.now
      issued ← lift o.now
      λ w. (
        o.sign config.access_token_secret (record {
          user_id = user_id;
          email = email;
          name = name;
          jti = "";
          expires_at = o.numeric_date (expiry_base +ℤ config.access_token_expiry);
          issued_at = o.numeric_date issued;
          issuer = issuer;
        }),
        w,
      )

    unfoldable pub generate_refresh_token : ℕ → M World Error String
    generate_refresh_token user_id = do
      now ← lift o.now
      id ← lift o.new_uuid
      λ w. (
        o.sign config.refresh_token_secret (record {
          user_id = user_id;
          email = "";
          name = "";
          jti = o.uuid_string id;
          expires_at = o.numeric_date (now +ℤ config.refresh_token_expiry);
          issued_at = o.numeric_date now;
          issuer = issuer;
        }),
        w,
      )

    -- The key function refuses a token whose method is no HMAC.
    abbrev pub key_for : String → Bool → Result Error String
    key_for secret true = ok secret
    key_for secret false = err (Error.plain "invalid signing method")

    abbrev validate : String → String → M World Error TokenClaims
    validate secret token =
        if str_eq token ""
        then raise (Error.plain "token is empty")
        else o.parse_with_claims token (key_for secret)

    unfoldable pub validate_access_token : String → M World Error TokenClaims
    validate_access_token token = validate config.access_token_secret token

    unfoldable pub validate_refresh_token : String → M World Error TokenClaims
    validate_refresh_token token = validate config.refresh_token_secret token

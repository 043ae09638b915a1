-- ===== src/Service/Csrf.antt =====
-- internal/service/csrf. HMAC-SHA256, the random source and the clock are the libraries'; a time
-- is its nanoseconds since Go's zero time.
pub mod Laws
pub mod Accepted
use Prim.Native.String.{◌++◌ as ◌<>◌}
use clean_arch_go_gin.Base.{
  ℕ, ◌+◌, ◌*◌, ◌/◌, String, Bool, true, false, ◌&&◌, List, [], ◌∷◌, ◌++◌, Option, none, some,
  length, ◌==◌, if◌then◌else◌,
}
use clean_arch_go_gin.Base.Hex.{hex_encode, hex_decode, split_dots, be_bytes, be_value}
use clean_arch_go_gin.Base.Int.{
  ℤ, pos, negsuc, ◌+ℤ◌, ◌-ℤ◌, ◌*ℤ◌, leb_ℤ, wrap_int64, uint64, int64, clamp_int64,
}
use clean_arch_go_gin.Base.Effect.{ok, M, map_err, ◌>>=◌}
use clean_arch_go_gin.Apperr.{Error}

-- `rand.Read` into a slice of a length, `time.Now`, and an HMAC with a key over the bytes written.
pub record Sources (W : Type 0) : Type 0 where
  pub rand_read : ℕ → M W Error (List ℕ)
  pub now : W → ℤ × W
  pub hmac_sha256 : String → List ℕ → List ℕ

abbrev pub clock_skew : ℤ
clock_skew = pos 60000000000

abbrev pub nonce_length : ℕ
nonce_length = 32

-- `NewCSRFService`
pub record CsrfService : Type 0 where
  pub secret : String
  pub ttl : ℤ

-- The seconds from Go's zero time to 1970.
abbrev pub unix_offset : ℤ
unix_offset = pos 62135596800

-- Whole seconds, rounded down.
unfoldable pub seconds : ℤ → ℤ
seconds (pos n) = pos (n / 1000000000)
seconds (negsuc n) = negsuc (n / 1000000000)

-- `t.Unix()`, `time.Unix(sec, 0)` and `t.Sub(u)`, which keeps within the type of durations.
unfoldable pub unix : ℤ → ℤ
unfolding seconds
unix t = seconds t -ℤ unix_offset

unfoldable pub time_unix : ℤ → ℤ
time_unix sec = wrap_int64 (sec +ℤ unix_offset) *ℤ pos 1000000000

unfoldable pub time_sub : ℤ → ℤ → ℤ
time_sub t u = clamp_int64 (t -ℤ u)

-- `hmac.Equal`
unfoldable pub equal_bytes : List ℕ → List ℕ → Bool
equal_bytes [] [] = true
equal_bytes (x ∷ xs) (y ∷ ys) = x == y && equal_bytes xs ys
equal_bytes _ _ = false

module _ {W : Type 0} (sources : Sources W) (s : CsrfService) where
  abbrev pub sign : List ℕ → List ℕ → List ℕ
  sign nonce issued_at = sources.hmac_sha256 s.secret (nonce ++ issued_at)

  -- The token for a nonce and the bytes of the issue time.
  abbrev pub spell : List ℕ → List ℕ → String
  spell nonce issued_at =
      hex_encode nonce
      <> ("." <> (hex_encode issued_at <> ("." <> hex_encode (sign nonce issued_at))))

  abbrev pub stamp : ℤ → List ℕ
  stamp now = be_bytes 8 (uint64 (unix now))

  -- `GenerateToken`
  unfoldable pub generate_token : M W Error String
  generate_token = do
    nonce ← map_err (Error.wrap "generating CSRF nonce") (sources.rand_read nonce_length)
    λ w. let (now, w') = sources.now w in (ok (spell nonce (stamp now)), w')

  -- The bytes of the issue time, once the signature over them has been recomputed.
  unfoldable pub signed_time : List String → Option (List ℕ)
  signed_time (p ∷ q ∷ r ∷ []) = elim (hex_decode p) [
    | none ↦ none
    | some nonce ↦
        if length nonce == nonce_length
        then elim (hex_decode q) [
          | none ↦ none
          | some issued_at ↦
              if length issued_at == 8
              then elim (hex_decode r) [
                | none ↦ none
                | some signature ↦
                    if equal_bytes signature (sign nonce issued_at) then some issued_at else none
              ]
              else none
        ]
        else none
  ]
  signed_time _ = none

  -- The last return of `ValidateToken`.
  unfoldable pub is_fresh : ℤ → ℤ → Bool
  is_fresh now issued =
      let age = time_sub now issued in leb_ℤ (pos 0 -ℤ clock_skew) age && leb_ℤ age s.ttl

  -- `ValidateToken`
  unfoldable pub validate_token : String → W → Bool × W
  validate_token token w = elim (signed_time (split_dots token)) [
    | none ↦ (false, w)
    | some issued_at ↦
        let (now, w') = sources.now w in
        (is_fresh now (time_unix (int64 (be_value 0 issued_at))), w')
  ]

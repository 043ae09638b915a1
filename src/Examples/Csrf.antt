-- ===== src/Examples/Csrf.antt =====
-- A CSRF service with a clock that counts nanoseconds and a checksum in place of the HMAC.
use Prim.Native.String.{len}
use clean_arch_go_gin.Base.{
  ℕ, zero, suc, ◌+◌, String, ◌≡◌, ◌↔◌, refl, true, List, [], ◌∷◌, length, All, ap, subst, arith,
}
use clean_arch_go_gin.Base.Hex.{
  hex_encode, hex_decode, from_hex, byte_of, grow, split_dots, be_bytes, be_value,
}
use clean_arch_go_gin.Base.Hex.Laws.{IsByte, be_bytes-IsByte}
use clean_arch_go_gin.Base.Int.{pos, int64, wrap_int64, uint64, clamp_int64, ◌+ℤ◌, ◌-ℤ◌, ◌*ℤ◌}
use clean_arch_go_gin.Base.Effect.{ok, Post}
use clean_arch_go_gin.Service.Csrf.{
  Sources, CsrfService, seconds, unix, time_unix, time_sub, equal_bytes, spell, stamp,
  generate_token, signed_time, is_fresh, validate_token,
}
use clean_arch_go_gin.Service.Csrf.Laws.{Documented}
use clean_arch_go_gin.Service.Csrf.Accepted.{
  IsSigned, IsFresh, validate_token-IsSound, validate_token-generate_token,
}

abbrev sevens : ℕ → List ℕ
sevens zero = []
sevens (suc n) = 7 ∷ sevens n

length-sevens : (n : ℕ) → length (sevens n) ≡ n
length-sevens zero = refl
length-sevens (suc n) = ap suc (length-sevens n)

sevens-IsByte : (n : ℕ) → All IsByte (sevens n)
sevens-IsByte zero = tt
sevens-IsByte (suc n) = (omega arith, sevens-IsByte n)

abbrev sources : Sources ℕ
sources = record {
  rand_read = λ n w. (ok (sevens n), w);
  now = λ w. (pos w, w + 1);
  hmac_sha256 = λ key message. be_bytes 4 (be_value (len key) message);
}

abbrev service : CsrfService
service = record { secret = "secret"; ttl = pos 3600000000000 }

sources-Documented : Documented sources service
sources-Documented = record {
  fills = λ n w w' bytes e.
      subst (Post (λ bs _. (length bs ≡ n) × All IsByte bs) (λ _ _. Unit {0})) e
        (length-sevens n, sevens-IsByte n);
  digests = λ key message. be_bytes-IsByte 4 _;
}

-- A moment, and another one half an hour later.
abbrev issued : ℕ
issued = 63900000000500000000

abbrev later : ℕ
later = 63900001800500000000

validate_token-generate_token_example :
    (token : String) × (generate_token sources service issued ≡ (ok token, issued + 1))
    × (((validate_token sources service token later).0 ≡ true)
        ↔ IsFresh sources service (pos later) (pos 63900000000000000000))
validate_token-generate_token_example =
    validate_token-generate_token sources service sources-Documented issued issued (issued + 1)
      later (sevens 32) issued (omega arith) (omega arith) refl refl (omega arith)

abbrev token : String
token = spell sources service (sevens 32) (stamp sources service (pos issued))

accepts_token : validate_token sources service token later ≡ (true, later + 1)
unfolding validate_token signed_time is_fresh seconds unix time_unix time_sub equal_bytes hex_encode
    hex_decode from_hex byte_of grow split_dots be_bytes be_value wrap_int64 uint64 clamp_int64 ◌+ℤ◌
    ◌-ℤ◌ ◌*ℤ◌
accepts_token = refl

validate_token-IsSound_example :
    (issued_at : List ℕ) × IsSigned sources service (split_dots token) issued_at
    × IsFresh sources service (pos later) (time_unix (int64 (be_value 0 issued_at)))
validate_token-IsSound_example =
    validate_token-IsSound sources service token later (later + 1) (omega arith) accepts_token

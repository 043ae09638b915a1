-- ===== src/Service/Csrf/Accepted.antt =====
-- What a CSRF token that is accepted must be, and that the tokens issued are.
use clean_arch_go_gin.Base.{
  ℕ, ◌-◌, ◌*◌, ◌/◌, ◌↔◌, ◌^◌, String, ◌≡◌, refl, sym, ap, Bool, ◌∙◌, true, List, [], ◌∷◌, some,
  length, Option-cases, inl, inr, arith,
}
use clean_arch_go_gin.Base.Hex.{hex_decode, split_dots, be_value}
use clean_arch_go_gin.Base.Int.{
  ℤ, pos, negsuc, ◌+ℤ◌, ◌-ℤ◌, ◌≤ℤ◌, ◌<ℤ◌, int64, int_laws, +ℤ_parts, clamp_int64, leb_ℤ,
}
use clean_arch_go_gin.Base.Effect.{ok}
use clean_arch_go_gin.Service.Csrf.{
  Sources, CsrfService, sign, time_unix, time_sub, clock_skew, signed_time, is_fresh,
  validate_token, generate_token, nonce_length,
}
use clean_arch_go_gin.Service.Csrf.Laws.{
  Documented, IsClock, equal_bytes_sound, validate_token-issued,
}

clamp_at_least :
    (x : ℤ) → leb_ℤ (pos 0 -ℤ clock_skew) (clamp_int64 x) ≡ true → negsuc 59999999999 ≤ℤ x
unfolding clamp_int64 ◌-ℤ◌
clamp_at_least (pos n) e = ground (arith, e)
clamp_at_least (negsuc n) e = ground (arith, e)

clamp_at_most : (x t : ℤ) → t <ℤ pos (2 ^ 63 - 1) → leb_ℤ (clamp_int64 x) t ≡ true → x ≤ℤ t
unfolding clamp_int64
clamp_at_most (pos n) t h e = ground (arith, h, e)
clamp_at_most (negsuc n) t h e = ground (arith, h, e)

at_least-clamp :
    (x : ℤ) → negsuc 59999999999 ≤ℤ x → leb_ℤ (pos 0 -ℤ clock_skew) (clamp_int64 x) ≡ true
unfolding clamp_int64 ◌-ℤ◌
at_least-clamp (pos n) h = ground (arith, h)
at_least-clamp (negsuc n) h = ground (arith, h)

at_most-clamp : (x t : ℤ) → pos 0 ≤ℤ t → x ≤ℤ t → leb_ℤ (clamp_int64 x) t ≡ true
unfolding clamp_int64
at_most-clamp (pos n) t p h = ground (arith, p, h)
at_most-clamp (negsuc n) t p h = ground (arith, p, h)

module _ {W : Type 0} (sources : Sources W) (s : CsrfService) where
  -- A nonce and an issue time of their lengths, and the signature that the secret gives them.
  pub record IsSigned (parts : List String) (issued_at : List ℕ) : Type 0 where
    pub first : String
    pub second : String
    pub third : String
    pub nonce : List ℕ
    pub three : parts ≡ first ∷ second ∷ third ∷ []
    pub reads_nonce : hex_decode first ≡ some nonce
    pub nonce_is_whole : length nonce ≡ 32
    pub reads_time : hex_decode second ≡ some issued_at
    pub time_is_whole : length issued_at ≡ 8
    pub reads_signature : hex_decode third ≡ some (sign sources s nonce issued_at)

  -- Not from more than a minute ahead, and not older than the lifetime.
  pub record IsFresh (now issued : ℤ) : Type 0 where
    pub not_ahead : issued ≤ℤ now +ℤ clock_skew
    pub not_expired : now ≤ℤ issued +ℤ s.ttl

  is_fresh-IsFresh :
      (now issued : ℤ)
      → s.ttl <ℤ pos (2 ^ 63 - 1)
      → is_fresh sources s now issued ≡ true
      → IsFresh now issued
  unfolding is_fresh time_sub
  is_fresh-IsFresh now issued h e =
      let early = clamp_at_least (now -ℤ issued) (ground (arith, e)) in
      let late = clamp_at_most (now -ℤ issued) s.ttl h (ground (arith, e)) in
      record {
        not_ahead = omega (int_laws, early, +ℤ_parts now clock_skew);
        not_expired = omega (int_laws, late, +ℤ_parts issued s.ttl);
      }

  signed_time-IsSigned :
      (parts : List String) (issued_at : List ℕ)
      → signed_time sources s parts ≡ some issued_at
      → IsSigned parts issued_at
  unfolding signed_time
  signed_time-IsSigned (p ∷ q ∷ r ∷ []) issued_at e = elim (Option-cases (hex_decode p)) [
    | inl missing ↦ absurd (ground (arith, e, missing))
    | inr (nonce, ep) ↦ elim (Option-cases (hex_decode q)) [
      | inl missing ↦ absurd (ground (arith, e, ep, missing))
      | inr (time, eq) ↦ elim (Option-cases (hex_decode r)) [
        | inl missing ↦ absurd (ground (arith, e, ep, eq, missing))
        | inr (signature, er) ↦ record {
          first = p;
          second = q;
          third = r;
          nonce = nonce;
          three = refl;
          reads_nonce = ep;
          nonce_is_whole = ground (arith, e, ep);
          reads_time = ground (arith, e, ep, eq, er);
          time_is_whole = ground (arith, e, ep, eq, er);
          reads_signature =
              er ∙ ap some (equal_bytes_sound signature _ (ground (arith, e, ep, eq, er)));
        }
      ]
    ]
  ]
  signed_time-IsSigned [] issued_at e = absurd (ground (arith, e))
  signed_time-IsSigned (p ∷ []) issued_at e = absurd (ground (arith, e))
  signed_time-IsSigned (p ∷ q ∷ []) issued_at e = absurd (ground (arith, e))
  signed_time-IsSigned (p ∷ q ∷ r ∷ t ∷ ts) issued_at e = absurd (ground (arith, e))

  -- A token that is accepted has three parts in hexadecimal: a nonce of 32 bytes, the 8 bytes of
  -- an issue time, and the signature of both under the service's secret; and its time is neither
  -- over a minute ahead of the clock nor further back than the lifetime. The lifetime is taken to
  -- be below the largest duration.
  pub validate_token-IsSound :
      (token : String) (w w' : W)
      → s.ttl <ℤ pos (2 ^ 63 - 1)
      → validate_token sources s token w ≡ (true, w')
      → (issued_at : List ℕ) × IsSigned (split_dots token) issued_at
        × IsFresh ((sources.now w).0) (time_unix (int64 (be_value 0 issued_at)))
  unfolding validate_token
  validate_token-IsSound token w w' h e =
      elim (Option-cases (signed_time sources s (split_dots token))) [
        | inl missing ↦ absurd (ground (arith, e, missing))
        | inr (issued_at, signed) ↦ (
          issued_at,
          signed_time-IsSigned (split_dots token) issued_at signed,
          is_fresh-IsFresh ((sources.now w).0) _ h (ground (arith, e, signed)),
        )
      ]

  IsFresh-is_fresh :
      (now issued : ℤ) → pos 0 ≤ℤ s.ttl → IsFresh now issued → is_fresh sources s now issued ≡ true
  unfolding is_fresh time_sub
  IsFresh-is_fresh now issued p f =
      let early : negsuc 59999999999 ≤ℤ now -ℤ issued =
        omega (int_laws, f.not_ahead, +ℤ_parts now clock_skew) in
      let late : now -ℤ issued ≤ℤ s.ttl = omega (int_laws, f.not_expired, +ℤ_parts issued s.ttl) in
      ground
        (arith, at_least-clamp (now -ℤ issued) early, at_most-clamp (now -ℤ issued) s.ttl p late)

  -- A token that is issued at a time is accepted later, or earlier, just while the whole second of
  -- that time is no more than a minute ahead of the clock and no further back than the lifetime,
  -- in whatever worlds the two calls run. The lifetime is taken to be neither negative nor the
  -- largest duration, and the clock to be past Go's zero time.
  pub validate_token-generate_token :
      (l : Documented sources s) (w w₁ w₂ v : W) (nonce : List ℕ) (t : ℕ)
      → pos 0 ≤ℤ s.ttl
      → s.ttl <ℤ pos (2 ^ 63 - 1)
      → sources.rand_read nonce_length w ≡ (ok nonce, w₁)
      → sources.now w₁ ≡ (pos t, w₂)
      → IsClock t
      → (token : String) × (generate_token sources s w ≡ (ok token, w₂))
        × (((validate_token sources s token v).0 ≡ true)
            ↔ IsFresh ((sources.now v).0) (pos (t / 1000000000 * 1000000000)))
  validate_token-generate_token l w w₁ w₂ v nonce t p h er en c =
      let (token, made, checked) = validate_token-issued sources s l w w₁ w₂ v nonce t er en c in
      let second = pos (t / 1000000000 * 1000000000) in
      let same = ap (λ (r : Bool × W). r.0) checked in
      (
        token,
        made,
        (
          λ e. is_fresh-IsFresh ((sources.now v).0) second h (sym same ∙ e),
          λ f. same ∙ IsFresh-is_fresh ((sources.now v).0) second p f,
        ),
      )

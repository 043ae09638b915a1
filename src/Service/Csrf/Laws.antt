-- ===== src/Service/Csrf/Laws.antt =====
-- CSRF tokens: what is accepted, and that what is issued is accepted for its lifetime.
use clean_arch_go_gin.Base.{
  ℕ, ◌*◌, ◌/◌, ◌<◌, ◌^◌, String, ◌≡◌, refl, true, List, [], ◌∷◌, some, length, All, arith,
}
use clean_arch_go_gin.Base.Hex.{split_dots, be_bytes, be_value}
use clean_arch_go_gin.Base.Hex.Laws.{
  IsByte, hex_decode-hex_encode, split_dots-hex_encode, split_dots_at_dot, be_value-be_bytes,
  be_bytes-IsByte, length-be_bytes,
}
use clean_arch_go_gin.Base.Int.{
  pos, ◌+ℤ◌, ◌-ℤ◌, ◌*ℤ◌, wrap_int64_of_pos, uint64, int64, IsInt64, int64-uint64, uint64-bound,
}
use clean_arch_go_gin.Base.Effect.{ok, rename, continue}
use clean_arch_go_gin.Service.Csrf.{
  Sources, CsrfService, sign, spell, stamp, seconds, unix, time_unix, equal_bytes, unix_offset,
  nonce_length, generate_token, signed_time, is_fresh, validate_token,
}

pub equal_bytes_sound : (xs ys : List ℕ) → equal_bytes xs ys ≡ true → xs ≡ ys
unfolding equal_bytes
equal_bytes_sound [] [] _ = refl
equal_bytes_sound [] (y ∷ ys) e = ground (arith, e)
equal_bytes_sound (x ∷ xs) [] e = ground (arith, e)
equal_bytes_sound (x ∷ xs) (y ∷ ys) e = ground (arith, e, equal_bytes_sound xs ys)

equal_bytes_refl : (xs : List ℕ) → equal_bytes xs xs ≡ true
unfolding equal_bytes
equal_bytes_refl [] = refl
equal_bytes_refl (x ∷ xs) = ground (arith, equal_bytes_refl xs)

-- A clock between Go's zero time and the last second that a `time.Time` counts.
abbrev pub IsClock : ℕ → Type 0
IsClock t = t / 1000000000 < 2 ^ 63

unix-parts : (t : ℕ) → unix (pos t) +ℤ unix_offset ≡ pos (t / 1000000000)
unfolding unix seconds ◌+ℤ◌ ◌-ℤ◌
unix-parts t = ground arith

-- Converting a time to Unix seconds and back drops what is below a second.
time_unix-unix : (t : ℕ) → IsClock t → time_unix (unix (pos t)) ≡ pos (t / 1000000000 * 1000000000)
unfolding time_unix ◌*ℤ◌
time_unix-unix t h = rw (unix-parts t, wrap_int64_of_pos (t / 1000000000) h) (ground arith)

unix-IsInt64 : (t : ℕ) → IsClock t → IsInt64 (unix (pos t))
unfolding unix seconds ◌-ℤ◌
unix-IsInt64 t h = (ground (arith, h), ground (arith, h))

shifted_away : (v : ℕ) → v < 2 ^ 64 → v / 256 / 256 / 256 / 256 / 256 / 256 / 256 / 256 ≡ 0
shifted_away v h = omega (arith, h)

-- The second that a token carries.
stamp-read :
    (t : ℕ)
    → IsClock t
    → time_unix (int64 (be_value 0 (be_bytes 8 (uint64 (unix (pos t))))))
      ≡ pos (t / 1000000000 * 1000000000)
stamp-read t h =
    rw
      (
        be_value-be_bytes 8 (uint64 (unix (pos t))) (shifted_away _ (uint64-bound (unix (pos t)))),
        int64-uint64 (unix (pos t)) (unix-IsInt64 t h),
      )
      (time_unix-unix t h)

module _ {W : Type 0} (sources : Sources W) (s : CsrfService) where
  open sources use {rand_read, now, hmac_sha256}

  -- What is documented of the two libraries: a read that succeeds fills the slice, and a digest
  -- is made of bytes.
  pub record Documented : Type 0 where
    pub fills :
        (n : ℕ) (w w' : W) (bytes : List ℕ)
        → rand_read n w ≡ (ok bytes, w')
        → (length bytes ≡ n) × All IsByte bytes
    pub digests : (key : String) (message : List ℕ) → All IsByte (hmac_sha256 key message)

  signed_time-spell :
      (l : Documented) (nonce issued_at : List ℕ)
      → All IsByte nonce
      → length nonce ≡ 32
      → All IsByte issued_at
      → length issued_at ≡ 8
      → signed_time sources s (split_dots (spell sources s nonce issued_at)) ≡ some issued_at
  unfolding signed_time
  signed_time-spell l nonce issued_at hn en hi ei = rw (
    split_dots_at_dot nonce _ hn,
    split_dots_at_dot issued_at _ hi,
    split_dots-hex_encode (sign sources s nonce issued_at) (l.digests _ _),
    signed_time,
    hex_decode-hex_encode nonce hn,
    en,
    hex_decode-hex_encode issued_at hi,
    ei,
    hex_decode-hex_encode (sign sources s nonce issued_at) (l.digests _ _),
    equal_bytes_refl (sign sources s nonce issued_at),
  )

  -- A token that is issued, in the words of the age test.
  pub validate_token-issued :
      (l : Documented) (w w₁ w₂ v : W) (nonce : List ℕ) (t : ℕ)
      → rand_read nonce_length w ≡ (ok nonce, w₁)
      → now w₁ ≡ (pos t, w₂)
      → IsClock t
      → (token : String) × (generate_token sources s w ≡ (ok token, w₂))
        × (validate_token sources s token v
            ≡ (is_fresh sources s ((now v).0) (pos (t / 1000000000 * 1000000000)), (now v).1))
  unfolding generate_token validate_token rename continue
  validate_token-issued l w w₁ w₂ v nonce t er en h =
      let (el, hb) = l.fills nonce_length w w₁ nonce er in
      let stamped = be_bytes-IsByte 8 (uint64 (unix (pos t))) in
      (
        spell sources s nonce (stamp sources s (pos t)),
        rw (er, en),
        rw (
          validate_token,
          signed_time-spell l nonce (stamp sources s (pos t)) hb el stamped (length-be_bytes 8 _),
          stamp-read t h,
        ),
      )

-- ===== src/Base/Hex/Laws.antt =====
-- Reading what was written: hexadecimal texts, parts between dots, big-endian numbers.
use Prim.Native.Char.{code}
use Prim.Native.String.{String, ◌++◌ as ◌<>◌}
use text.Mathlib.TextLemmas.{cons-append, nil-append}
use mathlib.Core.List.{List, [], ◌∷◌, ◌++◌}
use Prim.Native.Nat.{ℕ, zero, suc, ◌+◌, ◌*◌, ◌/◌, ◌%◌, ◌<◌}
use mathlib.Core.Bool.{Bool, true, false, ◌&&◌}
use mathlib.Core.Path.{◌≡◌, refl, sym, ◌∙◌, ap}
use mathlib.Core.Option.{some}
use mathlib.Core.Logic.{inl, inr}
use native.Mathlib.Omega.{arith}
use clean_arch_go_gin.Base.Tests.{◌==◌, ==_iff, Bool-cases, ltb, if◌then◌else◌}
use clean_arch_go_gin.Base.Lists.{All, length}
use clean_arch_go_gin.Base.Hex.{
  hex_digit, hex_encode, from_hex, byte_of, hex_decode, grow, split_dots, be_bytes, be_value,
}

abbrev pub IsByte : ℕ → Type 0
IsByte b = b < 256

-- A test of every number below a bound.
abbrev all_below : (ℕ → Bool) → ℕ → Bool
all_below p zero = true
all_below p (suc k) = p k && all_below p k

all_below-at : (p : ℕ → Bool) (k n : ℕ) → all_below p k ≡ true → n < k → p n ≡ true
all_below-at p zero n e h = absurd (omega (arith, h))
all_below-at p (suc k) n e h = elim (Bool-cases (n == k)) [
  | inl same ↦ ground (arith, e, ap p ((==_iff n k).0 same))
  | inr other ↦ all_below-at p k n (ground (arith, e)) (ground (arith, h, other))
]

code-hex_digit : (n : ℕ) → n < 16 → code (hex_digit n) ≡ (if ltb n 10 then n + 48 else n + 87)
code-hex_digit n h =
    (==_iff (code (hex_digit n)) _).0
      (all_below-at (λ k. code (hex_digit k) == (if ltb k 10 then k + 48 else k + 87)) 16 n refl h)

from_hex-hex_digit : (n : ℕ) → n < 16 → from_hex (hex_digit n) ≡ some n
unfolding from_hex
from_hex-hex_digit n h = rw (code-hex_digit n h) (ground (arith, h))

hex_digit_not_dot : (n : ℕ) → n < 16 → (code (hex_digit n) == 46) ≡ false
hex_digit_not_dot n h = rw (code-hex_digit n h) (ground (arith, h))

pub hex_decode-hex_encode : (bs : List ℕ) → All IsByte bs → hex_decode (hex_encode bs) ≡ some bs
unfolding hex_decode hex_encode byte_of
hex_decode-hex_encode [] _ = refl
hex_decode-hex_encode (b ∷ bs) (h, hs) =
    rw
      (
        from_hex-hex_digit (b / 16) (omega (arith, h)),
        from_hex-hex_digit (b % 16) (omega arith),
        hex_decode-hex_encode bs hs,
      )
      (ap (λ x. some (x ∷ bs)) (omega arith))

pub split_dots-hex_encode :
    (bs : List ℕ) → All IsByte bs → split_dots (hex_encode bs) ≡ hex_encode bs ∷ []
unfolding split_dots hex_encode grow
split_dots-hex_encode [] _ = refl
split_dots-hex_encode (b ∷ bs) (h, hs) = rw (
  hex_digit_not_dot (b / 16) (omega (arith, h)),
  hex_digit_not_dot (b % 16) (omega arith),
  split_dots-hex_encode bs hs,
)

pub split_dots_at_dot :
    (bs : List ℕ) (s : String)
    → All IsByte bs
    → split_dots (hex_encode bs <> ("." <> s)) ≡ hex_encode bs ∷ split_dots s
unfolding split_dots hex_encode grow
split_dots_at_dot [] s _ = rw (nil-append, cons-append, nil-append)
split_dots_at_dot (b ∷ bs) s (h, hs) = rw (
  cons-append,
  cons-append (hex_digit (b % 16)),
  hex_digit_not_dot (b / 16) (omega (arith, h)),
  hex_digit_not_dot (b % 16) (omega arith),
  split_dots_at_dot bs s hs,
)

be_value-append :
    (acc : ℕ) (bs : List ℕ) (b : ℕ) → be_value acc (bs ++ b ∷ []) ≡ be_value acc bs * 256 + b
unfolding be_value
be_value-append acc [] b = refl
be_value-append acc (x ∷ bs) b = be_value-append (acc * 256 + x) bs b

-- What is left of a number when `k` bytes have been written.
abbrev pub shifted : ℕ → ℕ → ℕ
shifted zero v = v
shifted (suc k) v = shifted k (v / 256)

pub be_value-be_bytes : (k v : ℕ) → shifted k v ≡ 0 → be_value 0 (be_bytes k v) ≡ v
unfolding be_value be_bytes
be_value-be_bytes zero v h = sym h
be_value-be_bytes (suc k) v h =
    rw (be_value-append 0 (be_bytes k (v / 256)) (v % 256), be_value-be_bytes k (v / 256) h)
      (omega arith)

append-IsByte : (bs : List ℕ) (b : ℕ) → All IsByte bs → IsByte b → All IsByte (bs ++ b ∷ [])
append-IsByte [] b _ h = (h, tt)
append-IsByte (x ∷ bs) b (hx, hs) h = (hx, append-IsByte bs b hs h)

pub be_bytes-IsByte : (k v : ℕ) → All IsByte (be_bytes k v)
unfolding be_bytes
be_bytes-IsByte zero v = tt
be_bytes-IsByte (suc k) v =
    append-IsByte (be_bytes k (v / 256)) (v % 256) (be_bytes-IsByte k _) (omega arith)

length_append_one : (bs : List ℕ) (b : ℕ) → length (bs ++ b ∷ []) ≡ suc (length bs)
length_append_one [] b = refl
length_append_one (x ∷ bs) b = ap suc (length_append_one bs b)

pub length-be_bytes : (k v : ℕ) → length (be_bytes k v) ≡ k
unfolding be_bytes
length-be_bytes zero v = refl
length-be_bytes (suc k) v =
    length_append_one (be_bytes k (v / 256)) _ ∙ ap suc (length-be_bytes k _)

-- ===== src/Request/Window.antt =====
-- The window that `Pagination.Normalized` and `Pagination.Offset` describe.
use clean_arch_go_gin.Base.{
  ℕ, zero, suc, ◌*◌, ◌^◌, ◌≤◌, ◌<◌, ◌≡◌, ◌∙◌, refl, ap, arith, if◌then◌else◌, leb, inl, inr,
  Bool-cases,
}
use clean_arch_go_gin.Base.Int.{
  ℤ, pos, negsuc, ◌<ℤ◌, ◌-ℤ◌, ◌*ℤ◌, ltb_ℤ, wrap_int64, wrap_int64_of_pos,
}
use clean_arch_go_gin.Request.{Pagination, default_limit, max_limit, normalized, offset}

-- A page number of at least 1 and a page size from 1 to 100, both as natural numbers.
pub record IsWindow (p : Pagination) : Type 0 where
  pub skipped : ℕ
  pub size : ℕ
  pub page_is : p.page ≡ pos (suc skipped)
  pub limit_is : p.limit ≡ pos size
  pub positive : 1 ≤ size
  pub capped : size ≤ 100

page_of : (page : ℤ) → (n : ℕ) × ((if ltb_ℤ page (pos 1) then pos 1 else page) ≡ pos (suc n))
page_of (pos zero) = (0, refl)
page_of (pos (suc n)) = (n, ground arith)
page_of (negsuc n) = (0, ground arith)

capped_limit : ℤ → ℤ
capped_limit limit =
    let floor = if ltb_ℤ limit (pos 1) then default_limit else limit in
    if ltb_ℤ max_limit floor then max_limit else floor

limit_of : (limit : ℤ) → (n : ℕ) × (capped_limit limit ≡ pos n) × (1 ≤ n) × (n ≤ 100)
unfolding capped_limit
limit_of (pos zero) = (20, refl, omega arith, omega arith)
limit_of (pos (suc n)) = elim (Bool-cases (leb (suc n) 100)) [
  | inl h ↦ (suc n, ground arith, omega arith, ground arith)
  | inr h ↦ (100, ground arith, omega arith, omega arith)
]
limit_of (negsuc n) = (20, ground arith, omega arith, omega arith)

-- Whatever the client asks for, the normalized window starts at page 1 or later and has from 1 to
-- 100 rows.
pub normalized-IsWindow : (p : Pagination) → IsWindow (normalized p)
unfolding normalized capped_limit
normalized-IsWindow p = record {
  skipped = (page_of p.page).0;
  size = (limit_of p.limit).0;
  page_is = (page_of p.page).1;
  limit_is = (limit_of p.limit).1;
  positive = (limit_of p.limit).2;
  capped = (limit_of p.limit).3;
}

normalized_fixed : (p : Pagination) → IsWindow p → normalized p ≡ p
unfolding normalized
normalized_fixed p h = ground (arith, h.page_is, h.limit_is, h.positive, h.capped)

-- Normalizing twice is the same as once, so `Offset`, which normalizes again, and the answer's
-- metadata speak of the same window.
pub normalized-idempotent : (p : Pagination) → normalized (normalized p) ≡ normalized p
normalized-idempotent p = normalized_fixed (normalized p) (normalized-IsWindow p)

mul_monotone : (a b c d : ℕ) → a ≤ b → c ≤ d → a * c ≤ b * d
mul_monotone a b c d h k = grind (arith, h, k)

below : (n size : ℕ) → n < 2 ^ 56 → size ≤ 100 → n * size < 2 ^ 63
below n size h k = omega (arith, mul_monotone n (2 ^ 56) size 100 (omega (arith, h)) k)

product :
    (n size : ℕ) → wrap_int64 ((pos (suc n) -ℤ pos 1) *ℤ pos size) ≡ wrap_int64 (pos (n * size))
unfolding ◌-ℤ◌ ◌*ℤ◌
product n size = ap wrap_int64 (ground arith)

offset_of :
    (p : Pagination) (h : IsWindow (normalized p))
    → h.skipped < 2 ^ 56
    → offset p ≡ pos (h.skipped * h.size)
unfolding offset
offset_of p h small = rw h.page_is (
    rw h.limit_is
      (product h.skipped h.size ∙ wrap_int64_of_pos _ (below h.skipped h.size small h.capped)))

-- For a page number below 2^56 the product in `Offset` does not wrap around: the offset is the
-- number of rows of the pages before.
pub offset_exact :
    (p : Pagination)
    → p.page <ℤ pos (2 ^ 56)
    → (h : IsWindow (normalized p)) × (offset p ≡ pos (h.skipped * h.size))
unfolding normalized
offset_exact p small = (normalized-IsWindow p, offset_of p (normalized-IsWindow p) (ground arith))

-- `Offset` normalizes first.
pub offset-normalized : (p : Pagination) → offset (normalized p) ≡ offset p
unfolding offset
offset-normalized p =
    ap (λ (n : Pagination). wrap_int64 ((n.page -ℤ pos 1) *ℤ n.limit)) (normalized-idempotent p)

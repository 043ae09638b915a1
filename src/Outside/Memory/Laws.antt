-- ===== src/Outside/Memory/Laws.antt =====
-- The world in memory keeps every law that is assumed of the libraries.
use mathlib.Core.Bool.{true≢false}
use mathlib.Core.List.{Memᴰ, Permᴰ}
use mathlib.Core.List.Permᴰ
use clean_arch_go_gin.Base.{
  ℕ, zero, suc, String, ◌≡◌, ◌≢◌, ◌∙◌, refl, sym, ap, Bool, true, false, ◌&&◌, List, [], ◌∷◌, ◌++◌,
  All, select, take, drop, Bool-cases, inl, inr, arith, if◌then◌else◌, str_eq, str_eq_iff,
}
use clean_arch_go_gin.Base.Effect.{Result, ok, err, M, returned, failed}
use clean_arch_go_gin.Apperr.{Error, is_record_not_found}
use clean_arch_go_gin.Entity.{UserEntity, RefreshTokenEntity, CounterEntity, is_live}
use clean_arch_go_gin.Database.{Views, Handle, tx, at, put, begin_tx}
use clean_arch_go_gin.Outside.Laws.{
  Laws, Answers, Writes, Finds, Lacks, StampedUser, StampedToken, Ordered, Transacted, committed,
  rolled_back,
}
use clean_arch_go_gin.Service.Token.Claims.{TokenClaims}
use clean_arch_go_gin.Outside.Memory.{
  Memory, in_memory, unary, count, same_codes, hash_of, first, any, insert, sort, in_order, page,
  insert_user, insert_token, settle, with_views,
}

later :
    {Row : Type 0} (p : Row → Bool) (r : Row) (rows : List Row) {v : Views}
    {x : Result Error Row × Memory}
    → p r ≡ false
    → Answers in_memory (Finds p rows) (λ e. is_record_not_found e ≡ true → Lacks p rows) v x
    → Answers in_memory
        (Finds p (r ∷ rows))
        (λ e. is_record_not_found e ≡ true → Lacks p (r ∷ rows))
        v
        x
later p r rows h (returned q) = returned (q.0, (Memᴰ.tail q.1.0, q.1.1))
later p r rows h (failed q) = failed (q.0, λ k. (h, q.1 k))

found_or_later :
    {Row : Type 0} (p : Row → Bool) (r : Row) (rows : List Row) (m : Memory) (v : Views) (b : Bool)
    → p r ≡ b
    → m.views ≡ v
    → Answers in_memory
        (Finds p rows)
        (λ e. is_record_not_found e ≡ true → Lacks p rows)
        v
        (first p rows, m)
    → Answers in_memory
        (Finds p (r ∷ rows))
        (λ e. is_record_not_found e ≡ true → Lacks p (r ∷ rows))
        v
        (if b then ok r else first p rows, m)
found_or_later p r rows m v true h e rest = returned (e, (Memᴰ.head refl, h))
found_or_later p r rows m v false h e rest = later p r rows h rest

first-Answers :
    {Row : Type 0} (p : Row → Bool) (rows : List Row) (m : Memory) (v : Views)
    → m.views ≡ v
    → Answers in_memory
        (Finds p rows)
        (λ e. is_record_not_found e ≡ true → Lacks p rows)
        v
        (first p rows, m)
first-Answers p [] m v e = failed (e, λ _. tt)
first-Answers p (r ∷ rows) m v e =
    found_or_later p r rows m v (p r) refl e (first-Answers p rows m v e)

any-false : {Row : Type 0} (p : Row → Bool) (rows : List Row) → any p rows ≡ false → Lacks p rows
any-false p [] h = tt
any-false p (r ∷ rows) h = (ground arith, any-false p rows (ground arith))

insert-Permᴰ :
    {Row : Type 0} (before : Row → Row → Bool) (r : Row) (rows : List Row)
    → Permᴰ (insert before r rows) (r ∷ rows)
insert-Permᴰ before r [] = Permᴰ.refl _
insert-Permᴰ before r (s ∷ rows) = elim (Bool-cases (before s r)) [
  | inl h ↦ rw h (Permᴰ.trans (Permᴰ.cons refl (insert-Permᴰ before r rows)) (Permᴰ.swap refl refl))
  | inr h ↦ rw h (Permᴰ.refl _)
]

sort-Permᴰ :
    {Row : Type 0} (before : Row → Row → Bool) (rows : List Row) → Permᴰ (sort before rows) rows
sort-Permᴰ before [] = Permᴰ.nil
sort-Permᴰ before (r ∷ rows) =
    Permᴰ.trans (insert-Permᴰ before r (sort before rows))
      (Permᴰ.cons refl (sort-Permᴰ before rows))

in_order-Ordered :
    {Row : Type 0} (before : Row → Row → Bool) (rows : List Row)
    → in_order before rows ≡ true
    → Ordered before rows
in_order-Ordered before [] h = tt
in_order-Ordered before (r ∷ rows) h =
    (any-false (λ s. before s r) rows (ground arith), in_order-Ordered before rows (ground arith))

same_codes_refl : (xs : List ℕ) → same_codes xs xs ≡ true
same_codes_refl [] = refl
same_codes_refl (x ∷ xs) = ground (arith, same_codes_refl xs)

nonempty : (s : String) → hash_of s ≢ []
nonempty s e = ground arith

count-unary : (n : ℕ) → count (unary n) ≡ n
count-unary zero = refl
count-unary (suc n) = ap suc (count-unary n)

-- A field that a test tells apart, for every row.
differs :
    {Row : Type 0} (field : Row → String) (x : String) (rows : List Row)
    → Lacks (λ r. str_eq (field r) x) rows
    → All (λ r. field r ≢ x) rows
differs field x [] h = tt
differs field x (r ∷ rows) h =
    (λ e. true≢false (sym ((str_eq_iff (field r) x).1 e) ∙ h.0), differs field x rows h.1)

insert_user-Writes :
    (h : Handle) (u : UserEntity) (m : Memory)
    → Writes in_memory
        (λ u' v'.
          StampedUser u u'
          × (v' ≡ put h (record (at h m.views) { users = (at h m.views).users ++ u' ∷ [] }) m.views)
          × All (λ other. other.email ≢ u.email) (at h m.views).users)
        m.views
        (insert_user h u m)
insert_user-Writes h u m =
    elim (Bool-cases (any (λ other. str_eq other.email u.email) (at h m.views).users)) [
      | inl k ↦ rw k (failed refl)
      | inr k ↦ rw k (returned ((_, _, refl), refl, differs _ _ _ (any-false _ _ k)))
    ]

insert_token-Writes :
    (h : Handle) (r : RefreshTokenEntity) (m : Memory)
    → Writes in_memory
        (λ r' v'.
          StampedToken r r'
          × (v'
              ≡ put h (record (at h m.views) { tokens = (at h m.views).tokens ++ r' ∷ [] }) m.views)
          × All (λ other. other.token_hash ≢ r.token_hash) (at h m.views).tokens)
        m.views
        (insert_token h r m)
insert_token-Writes h r m =
    elim (Bool-cases (any (λ other. str_eq other.token_hash r.token_hash) (at h m.views).tokens)) [
      | inl k ↦ rw k (failed refl)
      | inr k ↦ rw k (returned ((_, _, refl), refl, differs _ _ _ (any-false _ _ k)))
    ]

page-Answers :
    (before : RefreshTokenEntity → RefreshTokenEntity → Bool) (limit offset : ℕ)
    (rows : List RefreshTokenEntity) (m : Memory)
    → Answers in_memory
        (λ found.
          (sorted : List RefreshTokenEntity) × Permᴰ sorted rows
          × Ordered before sorted
          × (found ≡ take limit (drop offset sorted)))
        (λ _. Unit {0})
        m.views
        (page before limit offset rows, m)
page-Answers before limit offset rows m = elim (Bool-cases (in_order before (sort before rows))) [
  | inl k ↦ rw k (
      returned
        (refl, (sort before rows, sort-Permᴰ before rows, in_order-Ordered before _ k, refl)))
  | inr k ↦ rw k (failed (refl, tt))
]

settle-Transacted :
    {A : Type 0} (fn : Handle → M Memory Error A) (m : Memory) (r : Result Error A × Memory)
    → fn tx (with_views m (begin_tx m.views)) ≡ r
    → Transacted in_memory fn m (settle r)
settle-Transacted fn m (ok a, m') e = committed refl e refl
settle-Transacted fn m (err x, m') e = rolled_back refl e refl

parse_outcome-Answers :
    (r : Result Error TokenClaims) (m : Memory) (v : Views)
    → m.views ≡ v
    → Answers in_memory (λ _. Unit {0}) (λ _. Unit {0}) v (r, m)
parse_outcome-Answers (ok c) m v e = returned (e, tt)
parse_outcome-Answers (err x) m v e = failed (e, tt)

first-Memᴰ :
    (rows : List CounterEntity) (m : Memory) (v : Views)
    → m.views ≡ v
    → Answers in_memory
        (λ c. Memᴰ c rows)
        (λ e. is_record_not_found e ≡ true → rows ≡ [])
        v
        (first (λ _. true) rows, m)
first-Memᴰ [] m v e = failed (e, λ _. refl)
first-Memᴰ (c ∷ rows) m v e = returned (e, Memᴰ.head refl)

pub in_memory-Laws : Laws in_memory
in_memory-Laws = record {
  ctx_err_law = λ w. refl;
  now_law = λ w. refl;
  new_uuid_law = λ w. refl;
  generate_password_law = λ s w v e. returned (e, (nonempty s, same_codes_refl (hash_of s)));
  parse_with_claims_law = λ token key w v e. parse_outcome-Answers _ w v e;
  parse_uuid_law = λ id. ap ok (count-unary id);
  first_user_law = λ h p w v e.
      rw (← e) (first-Answers (λ u. p u && is_live u) (at h w.views).users w w.views refl);
  create_user_law = λ h u w v e. rw (← e) (insert_user-Writes h u w);
  updates_user_law = λ h p c w v e. rw (← e) (returned (_, refl));
  delete_user_law = λ h p w v e. rw (← e) (returned (_, refl));
  first_token_law = λ h p w v e. rw (← e) (first-Answers p (at h w.views).tokens w w.views refl);
  create_token_law = λ h r w v e. rw (← e) (insert_token-Writes h r w);
  delete_token_law = λ h p w v e. rw (← e) (returned (refl, refl));
  count_token_law = λ h p w v e. rw (← e) (returned (refl, refl));
  find_token_law = λ h p before limit offset w v e _.
      rw (← e) (page-Answers before limit offset (select p (at h w.views).tokens) w);
  first_counter_law = λ h w v e. rw (← e) (first-Memᴰ (at h w.views).counters w w.views refl);
  save_counter_law = λ h c w v e. rw (← e) (returned (_, refl));
  first_message_law =
      λ h p w v e. rw (← e) (first-Answers p (at h w.views).messages w w.views refl);
  transaction_law = λ A fn w. settle-Transacted fn w (fn tx (with_views w (begin_tx w.views))) refl;
}

-- ===== src/Outside/Laws.antt =====
-- The documented behaviour of those libraries, as far as the proofs rely on it. A statement that
-- fails changes nothing; one that succeeds does what its SQL says, on the handle that it was given.
use mathlib.Core.List.{Memᴰ, Permᴰ}
use clean_arch_go_gin.Base.{
  ℕ, String, ◌≡◌, ◌≢◌, ◌≤◌, Bool, true, false, ◌&&◌, some, List, [], ◌∷◌, ◌++◌, map, length, select,
  reject, take, drop, All, if◌then◌else◌, ◌==◌,
}
use clean_arch_go_gin.Base.Int.{ℤ, pos}
use clean_arch_go_gin.Base.Effect.{Result, ok, err, M, Returns, returned, failed}
use clean_arch_go_gin.Apperr.{Error, is_record_not_found}
use clean_arch_go_gin.Entity.{UserEntity, RefreshTokenEntity, CounterEntity, MessageEntity, is_live}
use clean_arch_go_gin.Database.{Views, Handle, pool, tx, at, put, begin_tx, commit_tx}
use clean_arch_go_gin.Outside.{Outside}

-- The row that a query returns, and the rows when it finds none.
abbrev pub Finds : {Row : Type 0} → (Row → Bool) → List Row → Row → Type 0
Finds p rows r = Memᴰ r rows × (p r ≡ true)

abbrev pub Lacks : {Row : Type 0} → (Row → Bool) → List Row → Type 0
Lacks p rows = All (λ r. p r ≡ false) rows

-- GORM fills in the times of a row that it creates.
abbrev pub StampedUser : UserEntity → UserEntity → Type 0
StampedUser u u' =
    (created : ℤ) × (updated : ℤ) × (u' ≡ record u { created_at = created; updated_at = updated })

abbrev pub StampedToken : RefreshTokenEntity → RefreshTokenEntity → Type 0
StampedToken r r' =
    (created : ℤ) × (updated : ℤ) × (r' ≡ record r { created_at = created; updated_at = updated })

abbrev is_blank : String → Bool
is_blank String.[] = true
is_blank (String.◌∷◌ _ _) = false

abbrev is_nil : List ℕ → Bool
is_nil [] = true
is_nil (_ ∷ _) = false

-- `Updates` with a struct writes the fields that are not zero.
abbrev pub overlay : ℤ → UserEntity → UserEntity → UserEntity
overlay t c u = record u {
  email = if is_blank c.email then u.email else c.email;
  password = if is_nil c.password then u.password else c.password;
  name = if is_blank c.name then u.name else c.name;
  updated_at = t;
}

-- The users after `Updates` and after `Delete`, which both leave soft-deleted rows alone.
abbrev pub update_rows : (UserEntity → Bool) → ℤ → UserEntity → List UserEntity → List UserEntity
update_rows p t c = map (λ u. if p u && is_live u then overlay t c u else u)

abbrev pub soft_delete : (UserEntity → Bool) → ℤ → List UserEntity → List UserEntity
soft_delete p t = map (λ u. if p u && is_live u then record u { deleted_at = some t } else u)

abbrev pub save_row : ℤ → CounterEntity → List CounterEntity → List CounterEntity
save_row t c = map (λ d. if d.id == c.id then record c { updated_at = t } else d)

-- No row stands behind one that should come later.
abbrev pub Ordered : {Row : Type 0} → (Row → Row → Bool) → List Row → Type 0
Ordered before [] = Unit
Ordered before (r ∷ rs) = All (λ s. before s r ≡ false) rs × Ordered before rs

module _ (o : Outside) where
  open o use {World, views}

  -- How `db.Transaction(fn)` may end, begun at the world `w` on the pooled handle.
  pub data Transacted {A : Type 0} (fn : Handle → M World Error A) (w : World)
      : Result Error A × World → Type 0 where
    committed :
        {a : A} {w₀ w₁ w' : World}
        → views w₀ ≡ begin_tx (views w)
        → fn tx w₀ ≡ (ok a, w₁)
        → views w' ≡ commit_tx (views w₁)
        → Transacted fn w (ok a, w')
    rolled_back :
        {e : Error} {w₀ w₁ w' : World}
        → views w₀ ≡ begin_tx (views w)
        → fn tx w₀ ≡ (err e, w₁)
        → (views w').committed ≡ (views w₁).committed
        → Transacted fn w (err e, w')
    commit_failed :
        {a : A} {e : Error} {w₀ w₁ w' : World}
        → views w₀ ≡ begin_tx (views w)
        → fn tx w₀ ≡ (ok a, w₁)
        → (views w').committed ≡ (views w₁).committed
        → Transacted fn w (err e, w')
    not_begun :
        {e : Error} {w' : World}
        → (views w').committed ≡ (views w).committed
        → Transacted fn w (err e, w')

  -- A statement that starts from the views `v` and only reads.
  abbrev pub Answers :
      {A : Type 0} → (A → Type 0) → (Error → Type 0) → Views → Result Error A × World → Type 0
  Answers P Q v = Returns (λ a w'. (views w' ≡ v) × P a) (λ e w'. (views w' ≡ v) × Q e)

  -- A statement that starts from `v` and writes: `P` is said of its result and the views after it.
  abbrev pub Writes : {A : Type 0} → (A → Views → Type 0) → Views → Result Error A × World → Type 0
  Writes P v = Returns (λ a w'. P a (views w')) (λ _ w'. views w' ≡ v)

  -- A read whose error is of no interest.
  pub forget :
      {A : Type 0} {P : A → Type 0} {Q : Error → Type 0} {v : Views} {r : Result Error A × World}
      → Answers P Q v r
      → Returns (λ a w. (views w ≡ v) × P a) (λ _ w. views w ≡ v) r
  forget (returned p) = returned p
  forget (failed q) = failed q.0

  pub record Laws : Type 1 where
    pub ctx_err_law : (w : World) → views (o.ctx_err w).1 ≡ views w
    pub now_law : (w : World) → views (o.now w).1 ≡ views w
    pub new_uuid_law : (w : World) → views (o.new_uuid w).1 ≡ views w
    pub generate_password_law :
        (s : String) (w : World) (v : Views)
        → views w ≡ v
        → Answers
            (λ hash. (hash ≢ []) × (o.compare_password hash s ≡ true))
            (λ _. Unit)
            v
            (o.generate_password s w)
    pub parse_with_claims_law :
        (token : String) (key : Bool → Result Error String) (w : World) (v : Views)
        → views w ≡ v
        → Answers (λ _. Unit) (λ _. Unit) v (o.parse_with_claims token key w)
    pub parse_uuid_law : (id : ℕ) → o.parse_uuid (o.uuid_string id) ≡ ok id
    pub first_user_law :
        (h : Handle) (p : UserEntity → Bool) (w : World) (v : Views)
        → views w ≡ v
        → Answers
            (Finds (λ u. p u && is_live u) (at h v).users)
            (λ e. is_record_not_found e ≡ true → Lacks (λ u. p u && is_live u) (at h v).users)
            v
            (o.first_user h p w)
    pub create_user_law :
        (h : Handle) (u : UserEntity) (w : World) (v : Views)
        → views w ≡ v
        → Writes
            (λ u' v'.
              StampedUser u u'
              × (v' ≡ put h (record (at h v) { users = (at h v).users ++ u' ∷ [] }) v)
              × All (λ other. other.email ≢ u.email) (at h v).users)
            v
            (o.create_user h u w)
    pub updates_user_law :
        (h : Handle) (p : UserEntity → Bool) (c : UserEntity) (w : World) (v : Views)
        → views w ≡ v
        → Writes
            (λ _ v'.
              (t : ℤ) × (v'
                ≡ put h (record (at h v) { users = update_rows p t c (at h v).users }) v))
            v
            (o.updates_user h p c w)
    pub delete_user_law :
        (h : Handle) (p : UserEntity → Bool) (w : World) (v : Views)
        → views w ≡ v
        → Writes
            (λ _ v'.
              (t : ℤ) × (v' ≡ put h (record (at h v) { users = soft_delete p t (at h v).users }) v))
            v
            (o.delete_user h p w)
    pub first_token_law :
        (h : Handle) (p : RefreshTokenEntity → Bool) (w : World) (v : Views)
        → views w ≡ v
        → Answers
            (Finds p (at h v).tokens)
            (λ e. is_record_not_found e ≡ true → Lacks p (at h v).tokens)
            v
            (o.first_token h p w)
    pub create_token_law :
        (h : Handle) (r : RefreshTokenEntity) (w : World) (v : Views)
        → views w ≡ v
        → Writes
            (λ r' v'.
              StampedToken r r'
              × (v' ≡ put h (record (at h v) { tokens = (at h v).tokens ++ r' ∷ [] }) v)
              × All (λ other. other.token_hash ≢ r.token_hash) (at h v).tokens)
            v
            (o.create_token h r w)
    pub delete_token_law :
        (h : Handle) (p : RefreshTokenEntity → Bool) (w : World) (v : Views)
        → views w ≡ v
        → Writes
            (λ n v'.
              (v' ≡ put h (record (at h v) { tokens = reject p (at h v).tokens }) v)
              × (n ≡ length (select p (at h v).tokens)))
            v
            (o.delete_token h p w)
    pub count_token_law :
        (h : Handle) (p : RefreshTokenEntity → Bool) (w : World) (v : Views)
        → views w ≡ v
        → Answers (λ n. n ≡ length (select p (at h v).tokens)) (λ _. Unit) v (o.count_token h p w)
    pub find_token_law :
        (h : Handle) (p : RefreshTokenEntity → Bool)
        (before : RefreshTokenEntity → RefreshTokenEntity → Bool) (limit offset : ℕ) (w : World)
        (v : Views)
        → views w ≡ v
        → 1 ≤ limit
        → Answers
            (λ rows.
              (sorted : List RefreshTokenEntity) × Permᴰ sorted (select p (at h v).tokens)
              × Ordered before sorted
              × (rows ≡ take limit (drop offset sorted)))
            (λ _. Unit)
            v
            (o.find_token h p before (pos limit) (pos offset) w)
    pub first_counter_law :
        (h : Handle) (w : World) (v : Views)
        → views w ≡ v
        → Answers
            (λ c. Memᴰ c (at h v).counters)
            (λ e. is_record_not_found e ≡ true → (at h v).counters ≡ [])
            v
            (o.first_counter h w)
    pub save_counter_law :
        (h : Handle) (c : CounterEntity) (w : World) (v : Views)
        → views w ≡ v
        → Writes
            (λ _ v'.
              (t : ℤ) × (v'
                ≡ put h (record (at h v) { counters = save_row t c (at h v).counters }) v))
            v
            (o.save_counter h c w)
    pub first_message_law :
        (h : Handle) (p : MessageEntity → Bool) (w : World) (v : Views)
        → views w ≡ v
        → Answers
            (Finds p (at h v).messages)
            (λ e. is_record_not_found e ≡ true → Lacks p (at h v).messages)
            v
            (o.first_message h p w)
    pub transaction_law :
        (A : Type 0) (fn : Handle → M World Error A) (w : World)
        → Transacted fn w (o.transaction A pool fn w)

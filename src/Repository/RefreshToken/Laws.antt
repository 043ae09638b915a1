-- ===== src/Repository/RefreshToken/Laws.antt =====
-- Each method of the refresh-token repository does one statement on the connection of its context.
use mathlib.Core.List.{Permᴰ}
use clean_arch_go_gin.Base.{
  ℕ, String, ◌≡◌, ◌≢◌, ◌≤◌, List, [], ◌∷◌, ◌++◌, All, length, select, reject, take, drop,
}
use clean_arch_go_gin.Base.Int.{ℤ, pos}
use clean_arch_go_gin.Base.Effect.{returned, continue-Returns, rename-same}
use clean_arch_go_gin.Apperr.{Error}
use clean_arch_go_gin.Entity.{RefreshTokenEntity}
use clean_arch_go_gin.Database.{Views, Handle, pool, at, put}
use clean_arch_go_gin.Outside.{Outside}
use clean_arch_go_gin.Outside.Laws.{Laws, Answers, Writes, Ordered, StampedToken}
use clean_arch_go_gin.Repository.Context.{Context, conn, select_done-Answers}
use clean_arch_go_gin.Repository.User.Laws.{LookedUp, missing_is_nil-Answers}
use clean_arch_go_gin.Repository.RefreshToken.{
  for_user, owned_by, has_hash, active_for, expired_before, newest_first, create,
  find_by_token_hash, list_active_by_user_id, count_active_by_user_id, delete_by_user_id,
  delete_by_token_hash, delete_expired,
}

-- The views after the tokens seen on a handle are replaced.
abbrev pub with_tokens : Handle → List RefreshTokenEntity → Views → Views
with_tokens h ts v = put h (record (at h v) { tokens = ts }) v

module _ (o : Outside) (l : Laws o) (ctx : Context) (w : o.World) (v : Views)
    (e : o.views w ≡ v) where
  abbrev h : Handle
  h = conn ctx pool

  abbrev tokens : List RefreshTokenEntity
  tokens = (at (conn ctx pool) v).tokens

  pub create-Writes :
      (token : RefreshTokenEntity)
      → Writes o
          (λ _ v'.
            (row : RefreshTokenEntity) × StampedToken token row
            × (v' ≡ with_tokens h (tokens ++ row ∷ []) v)
            × All (λ other. other.token_hash ≢ token.token_hash) tokens)
          v
          (create o ctx token w)
  unfolding create
  create-Writes token =
      continue-Returns (select_done-Answers o l w v e)
        (λ _ w' p.
          continue-Returns
            (rename-same (Error.wrap "creating refresh token")
              (l.create_token_law h token w' v p.0))
            (λ row _ q. returned (row, q.0, q.1, q.2)) (λ _ _ q. q))
        (λ _ _ q. q.0)

  pub find_by_token_hash-Answers :
      (hash : String)
      → Answers o
          (LookedUp (has_hash hash) tokens)
          (λ _. Unit {0})
          v
          (find_by_token_hash o ctx hash w)
  unfolding find_by_token_hash
  find_by_token_hash-Answers hash =
      continue-Returns (select_done-Answers o l w v e)
        (λ _ w' p.
          missing_is_nil-Answers o (Error.wrap "finding refresh token")
            (l.first_token_law h (has_hash hash) w' v p.0))
        (λ _ _ q. q)

  pub list_active_by_user_id-Answers :
      (user_id : ℕ) (now : ℤ) (limit offset : ℕ)
      → 1 ≤ limit
      → Answers o
          (λ rows.
            (sorted : List RefreshTokenEntity) × Permᴰ sorted
              (select (active_for user_id now) tokens)
            × Ordered newest_first sorted
            × (rows ≡ take limit (drop offset sorted)))
          (λ _. Unit {0})
          v
          (list_active_by_user_id o ctx user_id now (pos limit) (pos offset) w)
  unfolding list_active_by_user_id
  list_active_by_user_id-Answers user_id now limit offset k =
      continue-Returns (select_done-Answers o l w v e)
        (λ _ w' p.
          rename-same (for_user o "listing active refresh tokens" user_id)
            (l.find_token_law h (active_for user_id now) newest_first limit offset w' v p.0 k))
        (λ _ _ q. q)

  pub count_active_by_user_id-Answers :
      (user_id : ℕ) (now : ℤ)
      → Answers o
          (λ n. n ≡ length (select (active_for user_id now) tokens))
          (λ _. Unit {0})
          v
          (count_active_by_user_id o ctx user_id now w)
  unfolding count_active_by_user_id
  count_active_by_user_id-Answers user_id now =
      continue-Returns (select_done-Answers o l w v e)
        (λ _ w' p.
          rename-same (for_user o "counting active refresh tokens" user_id)
            (l.count_token_law h (active_for user_id now) w' v p.0))
        (λ _ _ q. q)

  pub delete_by_user_id-Writes :
      (user_id : ℕ)
      → Writes o
          (λ _ v'. v' ≡ with_tokens h (reject (owned_by user_id) tokens) v)
          v
          (delete_by_user_id o ctx user_id w)
  unfolding delete_by_user_id
  delete_by_user_id-Writes user_id =
      continue-Returns (select_done-Answers o l w v e)
        (λ _ w' p.
          continue-Returns
            (rename-same (for_user o "deleting refresh tokens" user_id)
              (l.delete_token_law h (owned_by user_id) w' v p.0))
            (λ _ _ q. returned q.0) (λ _ _ q. q))
        (λ _ _ q. q.0)

  pub delete_by_token_hash-Writes :
      (hash : String)
      → Writes o
          (λ _ v'. v' ≡ with_tokens h (reject (has_hash hash) tokens) v)
          v
          (delete_by_token_hash o ctx hash w)
  unfolding delete_by_token_hash
  delete_by_token_hash-Writes hash =
      continue-Returns (select_done-Answers o l w v e)
        (λ _ w' p.
          continue-Returns
            (rename-same (Error.wrap "deleting refresh token")
              (l.delete_token_law h (has_hash hash) w' v p.0))
            (λ _ _ q. returned q.0) (λ _ _ q. q))
        (λ _ _ q. q.0)

  pub delete_expired-Writes :
      (before : ℤ)
      → Writes o
          (λ n v'.
            (v' ≡ with_tokens h (reject (expired_before before) tokens) v)
            × (n ≡ length (select (expired_before before) tokens)))
          v
          (delete_expired o ctx before w)
  unfolding delete_expired
  delete_expired-Writes before =
      continue-Returns (select_done-Answers o l w v e)
        (λ _ w' p.
          rename-same (Error.wrap "deleting expired refresh tokens")
            (l.delete_token_law h (expired_before before) w' v p.0))
        (λ _ _ q. q.0)

-- ===== src/Service/User/Session/Listing.antt =====
-- What the list of sessions shows, and what the purge of expired sessions leaves.
use mathlib.Core.List.{Permᴰ}
use clean_arch_go_gin.Base.{
  ℕ, suc, String, ◌≡◌, ◌∙◌, sym, subst, ◌+◌, ◌*◌, ◌^◌, ◌≤◌, refl, ap, List, [], map, length, select,
  reject, take, drop, none, arith, select-reject_self, select-reject_disjoint, length-select-reject,
}
use clean_arch_go_gin.Base.Int.{ℤ, pos, ◌<ℤ◌}
use clean_arch_go_gin.Base.Effect.{
  returned, continue-Returns, continue-traced, rename-same, Returns-mono,
}
use clean_arch_go_gin.Entity.{RefreshTokenEntity}
use clean_arch_go_gin.Database.{Views, at, pool}
use clean_arch_go_gin.Outside.{Outside}
use clean_arch_go_gin.Outside.Laws.{Laws, Answers, Writes, Ordered, forget}
use clean_arch_go_gin.Repository.Context.{Context, conn, select_done-Answers}
use clean_arch_go_gin.Repository.RefreshToken.{
  active_for, newest_first, expired_before, list_active_by_user_id,
}
use clean_arch_go_gin.Repository.RefreshToken.Laws.{
  list_active_by_user_id-Answers, count_active_by_user_id-Answers,
}
use clean_arch_go_gin.Request.{Pagination, normalized, offset}
use clean_arch_go_gin.Request.Window.{IsWindow, offset_exact, offset-normalized}
use clean_arch_go_gin.Response.{SessionList}
use clean_arch_go_gin.Service.Token.Laws.{lift-Answers}
use clean_arch_go_gin.Service.User.Tokens.{UserService, internally, purge_expired_refresh_tokens}
use clean_arch_go_gin.Service.User.Tokens.Laws.{asked_at, purge_expired_refresh_tokens-Writes}
use clean_arch_go_gin.Service.User.Session.{current_hash, to_session, list_sessions}

-- The answer is one page of the user's sessions that are active at a time, the newest first, with the number of the page, its size and the number of all of them.
pub record IsListing (o : Outside) (now : ℤ) (user_id : ℕ) (token : String) (page : Pagination)
    (rows : List RefreshTokenEntity) (list : SessionList) : Type 0 where
  pub sorted : List RefreshTokenEntity
  pub all : Permᴰ sorted (select (active_for user_id now) rows)
  pub newest : Ordered newest_first sorted
  pub window : IsWindow (normalized page)
  pub sessions :
      list.sessions
      ≡ map
          (to_session (current_hash o token))
          (take window.size (drop (window.skipped * window.size) sorted))
  pub page_number : list.meta.page ≡ pos (suc window.skipped)
  pub page_size : list.meta.limit ≡ pos window.size
  pub total : list.meta.total ≡ length (select (active_for user_id now) rows)

at_time :
    {o : Outside} {now now' : ℤ} {user_id : ℕ} {token : String} {page : Pagination}
    {rows : List RefreshTokenEntity} {list : SessionList}
    → now ≡ now'
    → IsListing o now user_id token page rows list
    → IsListing o now' user_id token page rows list
at_time {o} {now} {now'} {user_id} {token} {page} {rows} {list} e =
    subst (λ t. IsListing o t user_id token page rows list) e

module _ (o : Outside) (l : Laws o) (s : UserService) (ctx : Context) (w : o.World) where
  open o use {World, views}

  page-Answers :
      (w₃ : World) (v : Views) (e : views w₃ ≡ v) (user_id : ℕ) (now limit offset : ℤ)
      (size skipped : ℕ)
      → limit ≡ pos size
      → offset ≡ pos skipped
      → 1 ≤ size
      → Answers o
          (λ rows.
            (sorted : List RefreshTokenEntity) × Permᴰ sorted
              (select (active_for user_id now) (at (conn ctx pool) v).tokens)
            × Ordered newest_first sorted
            × (rows ≡ take size (drop skipped sorted)))
          (λ _. Unit {0})
          v
          (list_active_by_user_id o ctx user_id now limit offset w₃)
  page-Answers w₃ v e user_id now limit offset size skipped h k positive =
      rw h (rw k (list_active_by_user_id-Answers o l ctx w₃ v e user_id now size skipped positive))

  list_window-Answers :
      (user_id : ℕ) (token : String) (page : Pagination)
      → (window : IsWindow (normalized page))
      → offset (normalized page) ≡ pos (window.skipped * window.size)
      → Answers o
          (IsListing o (asked_at o w) user_id token page (at (conn ctx pool) (views w)).tokens)
          (λ _. Unit {0})
          (views w)
          (list_sessions o s user_id token page ctx w)
  unfolding list_sessions
  list_window-Answers user_id token page window exact =
      continue-traced (select_done-Answers o l w _ refl)
        (λ _ w₁ asked p.
          continue-Returns (lift-Answers o o.now w₁ _ (l.now_law w₁ ∙ p.0))
            (λ now w₂ q.
              continue-Returns
                (rename-same (internally "counting active sessions")
                  (forget o (count_active_by_user_id-Answers o l ctx w₂ _ q.0 user_id now)))
                (λ total w₃ r.
                  continue-Returns
                    (rename-same (internally "listing active sessions") (
                      forget o (
                        page-Answers w₃ _ r.0 user_id now _ _ _ _ window.limit_is exact
                          window.positive)))
                    (λ rows w₄ t. returned (
                      t.0,
                      at_time (q.1 ∙ sym (ap (λ x. (o.now x.1).0) asked)) (record {
                        sorted = t.1.0;
                        all = t.1.1;
                        newest = t.1.2;
                        window = window;
                        sessions = ap (map _) t.1.3;
                        page_number = window.page_is;
                        page_size = window.limit_is;
                        total = r.1;
                      }),
                    ))
                    (λ _ _ t. (t, tt)))
                (λ _ _ r. (r, tt)))
            (λ _ _ q. q))
        (λ _ _ _ p. p)

  -- Listing the sessions of a user, for a page number below 2^56, changes nothing. If it succeeds,
  -- the total is the number of the user's rows that expire after the time that the clock tells when
  -- the listing starts, and the sessions are those rows from the offset of the normalized page on,
  -- at most 100 of them, the newest first; a session is marked as the current one where its digest
  -- is that of the presented token.
  pub list_sessions-lists :
      (user_id : ℕ) (token : String) (page : Pagination)
      → page.page <ℤ pos (2 ^ 56)
      → Answers o
          (IsListing o (asked_at o w) user_id token page (at (conn ctx pool) (views w)).tokens)
          (λ _. Unit {0})
          (views w)
          (list_sessions o s user_id token page ctx w)
  list_sessions-lists user_id token page small =
      list_window-Answers user_id token page (offset_exact page small).0
        (offset-normalized page ∙ (offset_exact page small).1)

-- The rows that a purge at a time keeps and the number of those that it removes.
pub record IsPurged (now : ℤ) (n : ℕ) (rows rows' : List RefreshTokenEntity) : Type 0 where
  pub none_left : select (expired_before now) rows' ≡ []
  pub active_kept :
      (user_id : ℕ) → select (active_for user_id now) rows' ≡ select (active_for user_id now) rows
  pub counted : n + length rows' ≡ length rows

purged :
    (now : ℤ) (n : ℕ) (rows rows' : List RefreshTokenEntity)
    → rows' ≡ reject (expired_before now) rows
    → n ≡ length (select (expired_before now) rows)
    → IsPurged now n rows rows'
purged now n rows rows' e k = record {
  none_left = rw e (select-reject_self (expired_before now) rows);
  active_kept = λ user_id. rw e (
      select-reject_disjoint (active_for user_id now) (expired_before now) rows
        (λ row h. ground arith));
  counted = rw e (rw k (length-select-reject (expired_before now) rows));
}

module _ (o : Outside) (l : Laws o) (s : UserService) (ctx : Context) (w : o.World) where
  open o use {views}

  -- The purge, called outside a transaction: if it succeeds, no session that expired before the
  -- time that the clock tells when the purge starts is left, every session that is active then is
  -- still there, and the result is the number of rows that went; if it fails, nothing has changed.
  pub purge_expired_refresh_tokens-purges :
      ctx.transaction ≡ none
      → Writes o
          (λ n v'. IsPurged (asked_at o w) n (views w).committed.tokens v'.committed.tokens)
          (views w)
          (purge_expired_refresh_tokens o s ctx w)
  purge_expired_refresh_tokens-purges outermost =
      Returns-mono (purge_expired_refresh_tokens-Writes o l s ctx w _ refl)
        (λ n w' p.
          purged (asked_at o w) n (views w).committed.tokens (views w').committed.tokens
            (ap (λ (u : Views). u.committed.tokens) (rw outermost at p.0)) (rw outermost at p.1))
        (λ _ _ q. q)

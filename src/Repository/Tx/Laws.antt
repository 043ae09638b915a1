-- ===== src/Repository/Tx/Laws.antt =====
-- `WithinTx` is all or nothing: the work is committed as a whole or leaves no trace.
use clean_arch_go_gin.Base.{◌≡◌, ◌∙◌, sym, ap, subst, none}
use clean_arch_go_gin.Base.Effect.{Result, M, Returns, returned, failed, Post, Returns-Post}
use clean_arch_go_gin.Apperr.{Error}
use clean_arch_go_gin.Database.{Tables, Views, Handle, tx, begin_tx}
use clean_arch_go_gin.Outside.{Outside}
use clean_arch_go_gin.Outside.Laws.{
  Laws, Transacted, committed, rolled_back, commit_failed, not_begun,
}
use clean_arch_go_gin.Repository.Context.{Context, into}
use clean_arch_go_gin.Repository.Tx.{within_tx}

-- From an equation for the views to what a transaction's work has to show.
pub published :
    {v : Views} {c t : Tables} (P : Tables → Type 0)
    → v ≡ record { committed = c; pending = t }
    → P t
    → (v.committed ≡ c) × P v.pending
published P e p = (ap (λ (v : Views). v.committed) e, subst (λ (v : Views). P v.pending) (sym e) p)

module _ (o : Outside) where
  open o use {World, views}

  -- What the work of a transaction has to show, begun where the committed tables are `t`: it leaves
  -- them alone, and its own tables satisfy `P`.
  abbrev pub Works : {A : Type 0} → (A → Tables → Type 0) → Tables → Result Error A × World → Type 0
  Works P t =
      Returns (λ a w'. ((views w').committed ≡ t) × P a (views w').pending)
        (λ _ w'. (views w').committed ≡ t)

  -- The whole transaction publishes those tables, or the ones that were there before.
  abbrev pub Commits :
      {A : Type 0} → (A → Tables → Type 0) → Tables → Result Error A × World → Type 0
  Commits P t = Returns (λ a w'. P a (views w').committed) (λ _ w'. (views w').committed ≡ t)

  module _ {A : Type 0} (P : A → Tables → Type 0) (fn : Handle → M World Error A) (w : World) where
    pub Transacted-Commits :
        {r : Result Error A × World}
        → ((w₀ : World) → views w₀ ≡ begin_tx (views w) → Works P (views w).committed (fn tx w₀))
        → Transacted o fn w r
        → Commits P (views w).committed r
    Transacted-Commits work (committed {a} {w₀} {w₁} {w'} began ran seen) = returned (
        subst (P a) (sym (ap (λ (v : Views). v.committed) seen))
          (subst (Post _ _) ran (Returns-Post (work w₀ began))).1)
    Transacted-Commits work (rolled_back {w₀} began ran seen) =
        failed (seen ∙ subst (Post _ _) ran (Returns-Post (work w₀ began)))
    Transacted-Commits work (commit_failed {w₀} began ran seen) =
        failed (seen ∙ (subst (Post _ _) ran (Returns-Post (work w₀ began))).0)
    Transacted-Commits work (not_begun seen) = failed seen

  module _ (l : Laws o) (ctx : Context) (outermost : ctx.transaction ≡ none) where
    within_tx-Commits_here :
        {A : Type 0} (P : A → Tables → Type 0) (fn : Context → M World Error A) (w : World)
        → ((w₀ : World)
            → views w₀ ≡ begin_tx (views w)
            → Works P (views w).committed (fn (into ctx tx) w₀))
        → Commits P (views w).committed (within_tx o ctx fn w)
    unfolding within_tx
    within_tx-Commits_here {A} P fn w work =
        rw outermost (Transacted-Commits P (λ h. fn (into ctx h)) w work (l.transaction_law A _ w))

    pub within_tx-Commits :
        {A : Type 0} (P : A → Tables → Type 0) (fn : Context → M World Error A) (w : World)
        (v : Views)
        → views w ≡ v
        → ((w₀ : World) → views w₀ ≡ begin_tx v → Works P v.committed (fn (into ctx tx) w₀))
        → Commits P v.committed (within_tx o ctx fn w)
    within_tx-Commits P fn w v e =
        subst
          (λ (u : Views).
            ((w₀ : World) → views w₀ ≡ begin_tx u → Works P u.committed (fn (into ctx tx) w₀))
            → Commits P u.committed (within_tx o ctx fn w))
          e (within_tx-Commits_here P fn w)

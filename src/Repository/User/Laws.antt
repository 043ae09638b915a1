-- ===== src/Repository/User/Laws.antt =====
-- Each method of the user repository does one statement on the connection of its context.
use clean_arch_go_gin.Base.{
  ℕ, String, ◌≡◌, ◌≢◌, Bool, true, ◌&&◌, Option, none, some, List, [], ◌∷◌, ◌++◌, All, Bool-cases,
  inl, inr, ◌==◌, str_eq,
}
use clean_arch_go_gin.Base.Int.{ℤ}
use clean_arch_go_gin.Base.Effect.{Result, ok, returned, failed, continue, continue-Returns}
use clean_arch_go_gin.Apperr.{Error, is_record_not_found}
use clean_arch_go_gin.Entity.{UserEntity, is_live}
use clean_arch_go_gin.Database.{Views, pool, at, put}
use clean_arch_go_gin.Outside.{Outside}
use clean_arch_go_gin.Outside.Laws.{
  Laws, Answers, Writes, Finds, Lacks, StampedUser, update_rows, soft_delete,
}
use clean_arch_go_gin.Repository.Context.{Context, conn, select_done-Answers}
use clean_arch_go_gin.Repository.User.{
  missing_is_nil, create, find_by_email, find_by_id, update, delete,
}

-- What a lookup says of the rows: the row that it returns is one of them, and if it returns none
-- there is none.
abbrev pub LookedUp : {Row : Type 0} → (Row → Bool) → List Row → Option Row → Type 0
LookedUp p rows none = Lacks p rows
LookedUp p rows (some r) = Finds p rows r

module _ (o : Outside) where
  open o use {World, views}

  pub missing_is_nil-Answers :
      {Row : Type 0} {p : Row → Bool} {rows : List Row} {v : Views} (g : Error → Error)
      {r : Result Error Row × World}
      → Answers o (Finds p rows) (λ e. is_record_not_found e ≡ true → Lacks p rows) v r
      → Answers o (LookedUp p rows) (λ _. Unit {0}) v (continue (missing_is_nil g) (ok r.0, r.1))
  unfolding continue
  missing_is_nil-Answers g (returned h) = returned h
  missing_is_nil-Answers g (failed {e} {w} h) = elim (Bool-cases (is_record_not_found e)) [
    | inl missing ↦ rw missing (returned (h.0, h.1 missing))
    | inr broken ↦ rw broken (failed (h.0, tt))
  ]

module _ (o : Outside) (l : Laws o) (ctx : Context) (w : o.World) (v : Views)
    (e : o.views w ≡ v) where
  abbrev users : List UserEntity
  users = (at (conn ctx pool) v).users

  pub find_by_email-Answers :
      (email : String)
      → Answers o
          (LookedUp (λ u. str_eq u.email email && is_live u) users)
          (λ _. Unit {0})
          v
          (find_by_email o ctx email w)
  unfolding find_by_email
  find_by_email-Answers email =
      continue-Returns (select_done-Answers o l w v e)
        (λ _ w' p.
          missing_is_nil-Answers o (λ x. x)
            (l.first_user_law (conn ctx pool) (λ u. str_eq u.email email) w' v p.0))
        (λ _ _ q. q)

  pub find_by_id-Answers :
      (id : ℕ)
      → Answers o
          (LookedUp (λ u. u.id == id && is_live u) users)
          (λ _. Unit {0})
          v
          (find_by_id o ctx id w)
  unfolding find_by_id
  find_by_id-Answers id =
      continue-Returns (select_done-Answers o l w v e)
        (λ _ w' p.
          missing_is_nil-Answers o (Error.wrap "finding user by id")
            (l.first_user_law (conn ctx pool) (λ u. u.id == id) w' v p.0))
        (λ _ _ q. q)

  pub create-Writes :
      (user : UserEntity)
      → Writes o
          (λ id v'.
            (row : UserEntity) × StampedUser user row
            × (v'
                ≡ put
                    (conn ctx pool)
                    (record (at (conn ctx pool) v) { users = users ++ row ∷ [] })
                    v)
            × All (λ other. other.email ≢ user.email) users)
          v
          (create o ctx user w)
  unfolding create
  create-Writes user =
      continue-Returns (select_done-Answers o l w v e)
        (λ _ w' p.
          continue-Returns (l.create_user_law (conn ctx pool) user w' v p.0)
            (λ row w'' q. returned (row, q.0, q.1, q.2)) (λ _ _ q. q))
        (λ _ _ q. q.0)

  pub update-Writes :
      (id : ℕ) (user : UserEntity)
      → Writes o
          (λ _ v'.
            (t : ℤ) × (v'
              ≡ put
                  (conn ctx pool)
                  (record (at (conn ctx pool) v) {
                    users = update_rows (λ u. u.id == id) t user users;
                  })
                  v))
          v
          (update o ctx id user w)
  unfolding update
  update-Writes id user =
      continue-Returns (select_done-Answers o l w v e)
        (λ _ w' p. l.updates_user_law (conn ctx pool) (λ u. u.id == id) user w' v p.0)
        (λ _ _ q. q.0)

  pub delete-Writes :
      (id : ℕ)
      → Writes o
          (λ _ v'.
            (t : ℤ) × (v'
              ≡ put
                  (conn ctx pool)
                  (record (at (conn ctx pool) v) { users = soft_delete (λ u. u.id == id) t users })
                  v))
          v
          (delete o ctx id w)
  unfolding delete
  delete-Writes id =
      continue-Returns (select_done-Answers o l w v e)
        (λ _ w' p.
          continue-Returns (l.delete_user_law (conn ctx pool) (λ u. u.id == id) w' v p.0)
            (λ _ _ q. returned q) (λ _ _ q. q))
        (λ _ _ q. q.0)

-- ===== src/Service/User/Account/Rows.antt =====
-- What the two updates of the table of users do to the rows of one account and of the others.
use clean_arch_go_gin.Base.{
  ℕ, ◌≡◌, ◌≢◌, refl, Bool, true, ◌&&◌, List, [], ◌∷◌, All, reject, arith, ◌==◌,
}
use clean_arch_go_gin.Base.Int.{ℤ}
use clean_arch_go_gin.Entity.{UserEntity, is_live}
use clean_arch_go_gin.Outside.Laws.{Lacks, soft_delete, update_rows}

abbrev pub has_id : ℕ → UserEntity → Bool
has_id id u = u.id == id

-- A soft delete leaves no live row of the account.
pub soft_delete-Lacks :
    (id : ℕ) (t : ℤ) (users : List UserEntity)
    → Lacks (λ u. has_id id u && is_live u) (soft_delete (has_id id) t users)
soft_delete-Lacks id t [] = tt
soft_delete-Lacks id t (u ∷ users) = (ground arith, soft_delete-Lacks id t users)

-- The rows of the others stay as they are.
pub reject-soft_delete :
    (id : ℕ) (t : ℤ) (users : List UserEntity)
    → reject (has_id id) (soft_delete (has_id id) t users) ≡ reject (has_id id) users
reject-soft_delete id t [] = refl
reject-soft_delete id t (u ∷ users) = ground (arith, reject-soft_delete id t users)

-- The same of an update, which keeps the ids.
pub reject-update_rows :
    (id : ℕ) (t : ℤ) (c : UserEntity) (users : List UserEntity)
    → reject (has_id id) (update_rows (has_id id) t c users) ≡ reject (has_id id) users
reject-update_rows id t c [] = refl
reject-update_rows id t c (u ∷ users) = ground (arith, reject-update_rows id t c users)

-- Whatever an update with a password leaves live under the id has that password.
pub update_rows-password :
    (id : ℕ) (t : ℤ) (c : UserEntity) (users : List UserEntity)
    → c.password ≢ []
    → All
        (λ u. (has_id id u && is_live u) ≡ true → u.password ≡ c.password)
        (update_rows (has_id id) t c users)
update_rows-password id t c [] e = tt
update_rows-password id t c (u ∷ users) e = (λ h. ground arith, update_rows-password id t c users e)

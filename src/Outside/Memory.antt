-- ===== src/Outside/Memory.antt =====
-- One outside world that keeps the documented behaviour: tables in memory, a clock and a serial
-- number that go up at each call, hashes that are the text itself. It shows that the assumed laws
-- can hold, and the examples run in it.
pub mod Laws
use Prim.Native.Char.{code}
use clean_arch_go_gin.Base.{
  ℕ, zero, suc, ◌+◌, String, Bool, true, false, not, ◌&&◌, Option, none, some, List, [], ◌∷◌, ◌++◌,
  length, select, reject, take, drop, if◌then◌else◌, str_eq, ◌==◌, map,
}
use clean_arch_go_gin.Base.Int.{ℤ, pos, negsuc}
use clean_arch_go_gin.Base.Effect.{Result, ok, err, M}
use clean_arch_go_gin.Apperr.{Error}
use clean_arch_go_gin.Entity.{UserEntity, RefreshTokenEntity, CounterEntity, MessageEntity, is_live}
use clean_arch_go_gin.Database.{Tables, Views, Handle, at, put, begin_tx, commit_tx}
use clean_arch_go_gin.Outside.{Outside}
use clean_arch_go_gin.Outside.Laws.{update_rows, soft_delete, save_row}
use clean_arch_go_gin.Service.Token.Claims.{TokenClaims}

-- Beside the tables: the time, the next fresh id, and the tokens in circulation with the key and
-- the claims of each.
pub record Memory : Type 0 where
  pub views : Views
  pub clock : ℕ
  pub serial : ℕ
  pub circulating : List (String × String × TokenClaims)

abbrev pub with_views : Memory → Views → Memory
with_views m v = record m { views = v }

abbrev pub tick : Memory → ℤ × Memory
tick m = (pos m.clock, record m { clock = suc m.clock })

abbrev pub fresh : Memory → ℕ × Memory
fresh m = (m.serial, record m { serial = suc m.serial })

abbrev pub unary : ℕ → String
unary zero = ""
unary (suc n) = String.◌∷◌ "i" (unary n)

abbrev pub join : String → String → String
join String.[] t = t
join (String.◌∷◌ c s) t = String.◌∷◌ c (join s t)

abbrev pub count : String → ℕ
count String.[] = 0
count (String.◌∷◌ _ s) = suc (count s)

abbrev pub codes : String → List ℕ
codes String.[] = []
codes (String.◌∷◌ c s) = code c ∷ codes s

abbrev pub same_codes : List ℕ → List ℕ → Bool
same_codes [] [] = true
same_codes [] (_ ∷ _) = false
same_codes (_ ∷ _) [] = false
same_codes (a ∷ xs) (b ∷ ys) = (a == b) && same_codes xs ys

-- A password's hash is its codes behind a 1.
abbrev pub hash_of : String → List ℕ
hash_of s = 1 ∷ codes s

abbrev pub first : {Row : Type 0} → (Row → Bool) → List Row → Result Error Row
first p [] = err Error.record_not_found
first p (r ∷ rs) = if p r then ok r else first p rs

abbrev pub any : {Row : Type 0} → (Row → Bool) → List Row → Bool
any p [] = false
any p (r ∷ rs) = if p r then true else any p rs

-- Insertion sort, and the test that nothing is out of order.
abbrev pub insert : {Row : Type 0} → (Row → Row → Bool) → Row → List Row → List Row
insert before r [] = r ∷ []
insert before r (s ∷ rs) = if before s r then s ∷ insert before r rs else r ∷ s ∷ rs

abbrev pub sort : {Row : Type 0} → (Row → Row → Bool) → List Row → List Row
sort before [] = []
sort before (r ∷ rs) = insert before r (sort before rs)

abbrev pub in_order : {Row : Type 0} → (Row → Row → Bool) → List Row → Bool
in_order before [] = true
in_order before (r ∷ rs) = not (any (λ s. before s r) rs) && in_order before rs

abbrev pub parse : String → String → List (String × String × TokenClaims) → Result Error TokenClaims
parse token key [] = err (Error.plain "signature is invalid")
parse token key (known ∷ others) =
    if str_eq known.0 token && str_eq known.1 key then ok known.2 else parse token key others

abbrev pub size : ℤ → ℕ
size (pos n) = n
size (negsuc _) = 0

abbrev pub write : Handle → (Tables → Tables) → Memory → Memory
write h f m = with_views m (put h (f (at h m.views)) m.views)

abbrev pub stored_user : UserEntity → Memory → UserEntity
stored_user u m = record u { created_at = pos m.clock; updated_at = pos m.clock }

abbrev pub insert_user : Handle → UserEntity → M Memory Error UserEntity
insert_user h u m =
    if any (λ other. str_eq other.email u.email) (at h m.views).users
    then (err Error.duplicated_key, m)
    else (
      ok (stored_user u m),
      write h (λ t. record t { users = t.users ++ stored_user u m ∷ [] }) m,
    )

abbrev pub stored_token : RefreshTokenEntity → Memory → RefreshTokenEntity
stored_token r m = record r { created_at = pos m.clock; updated_at = pos m.clock }

abbrev pub insert_token : Handle → RefreshTokenEntity → M Memory Error RefreshTokenEntity
insert_token h r m =
    if any (λ other. str_eq other.token_hash r.token_hash) (at h m.views).tokens
    then (err Error.duplicated_key, m)
    else (
      ok (stored_token r m),
      write h (λ t. record t { tokens = t.tokens ++ stored_token r m ∷ [] }) m,
    )

abbrev pub page :
    (RefreshTokenEntity → RefreshTokenEntity → Bool)
    → ℕ
    → ℕ
    → List RefreshTokenEntity
    → Result Error (List RefreshTokenEntity)
page before limit offset rows =
    if in_order before (sort before rows)
    then ok (take limit (drop offset (sort before rows)))
    else err (Error.plain "no total order")

-- What a transaction does with the outcome of its work.
abbrev pub settle : {A : Type 0} → Result Error A × Memory → Result Error A × Memory
settle (ok a, m) = (ok a, with_views m (commit_tx m.views))
settle (err e, m) = (err e, m)

abbrev pub in_memory : Outside
in_memory = record {
  World = Memory;
  views = λ m. m.views;
  ctx_err = λ m. (none, m);
  now = tick;
  new_uuid = fresh;
  uuid_string = unary;
  parse_uuid = λ s. ok (count s);
  first_user = λ h p m. (first (λ u. p u && is_live u) (at h m.views).users, m);
  create_user = insert_user;
  updates_user = λ h p c m.
      (ok tt, write h (λ t. record t { users = update_rows p (pos m.clock) c t.users }) m);
  delete_user = λ h p m. (
    ok (length (select (λ u. p u && is_live u) (at h m.views).users)),
    write h (λ t. record t { users = soft_delete p (pos m.clock) t.users }) m,
  );
  first_token = λ h p m. (first p (at h m.views).tokens, m);
  create_token = insert_token;
  delete_token = λ h p m. (
    ok (length (select p (at h m.views).tokens)),
    write h (λ t. record t { tokens = reject p t.tokens }) m,
  );
  count_token = λ h p m. (ok (length (select p (at h m.views).tokens)), m);
  find_token = λ h p before limit offset m.
      (page before (size limit) (size offset) (select p (at h m.views).tokens), m);
  first_counter = λ h m. (first (λ _. true) (at h m.views).counters, m);
  save_counter = λ h c m.
      (ok tt, write h (λ t. record t { counters = save_row (pos m.clock) c t.counters }) m);
  first_message = λ h p m. (first p (at h m.views).messages, m);
  transaction = λ A h fn m. settle (fn Handle.tx (with_views m (begin_tx m.views)));
  generate_password = λ s m. (ok (hash_of s), m);
  compare_password = λ hash s. same_codes hash (hash_of s);
  sign = λ key c. ok (join key (join c.jti (unary c.user_id)));
  parse_with_claims =
      λ token key m. (elim (key true) [ ok k ↦ parse token k m.circulating | err e ↦ err e ], m);
  numeric_date = λ t. t;
  sum256 = codes;
}

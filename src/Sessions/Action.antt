-- ===== src/Sessions/Action.antt =====
-- Transactions: an action reads and changes the tables, and returns or raises an ApiError.
-- `async with database.sessions.begin()` commits on return and rolls back on an exception.
use globuy.Prelude.{ℕ, Bool, true, false, Option, none, some}
use globuy.Sessions.Schema.{Db, RunStatus}

-- The error codes that the store raises, with the details that name a row.
-- `integrity_error` is the IntegrityError of a violated key.
pub data Error : Type 0 where
  user_not_found thread_not_found thread_archived run_not_found integrity_error : Error
  invalid_cursor file_not_found invalid_artifact_path artifact_exists service_shutting_down : Error
  active_thread_changed : Option ℕ → Error
  run_cancellation_failed : ℕ → RunStatus → Error
  run_replacement_timeout : ℕ → Error

pub data Result {ℓ} (A : Type ℓ) : Type ℓ where
  ok : A → Result A
  err : Error → Result A

abbrev pub Action : Type 0 → Type 0
Action A = Db → Result A × Db

unfoldable pub pure : {A : Type 0} → A → Action A
pure a db = (ok a, db)

unfoldable pub raise : {A : Type 0} → Error → Action A
raise e db = (err e, db)

unfoldable pub gets : {A : Type 0} → (Db → A) → Action A
gets f db = (ok (f db), db)

unfoldable pub modify : (Db → Db) → Action (Unit {0})
modify f db = (ok tt, f db)

abbrev pub continue : {A B : Type 0} → (A → Action B) → Result A × Db → Result B × Db
continue k (ok a, db) = k a db
continue k (err e, db) = (err e, db)

infixl 5 ◌>>=◌ ◌>>◌
unfoldable pub ◌>>=◌ : {A B : Type 0} → Action A → (A → Action B) → Action B
◌>>=◌ m k db = continue k (m db)

unfoldable pub ◌>>◌ : {B : Type 0} → Action (Unit {0}) → Action B → Action B
unfolding ◌>>=◌
m >> k = m >>= λ _. k

unfoldable pub raise_if : Bool → Error → Action (Unit {0})
unfolding raise pure
raise_if true e = raise e
raise_if false e = pure tt

unfoldable pub or_raise : {A : Type 0} → Option A → Error → Action A
unfolding raise pure
or_raise none e = raise e
or_raise (some a) e = pure a

abbrev pub settle : {A : Type 0} → Db → Result A × Db → Result A × Db
settle before (ok a, after) = (ok a, after)
settle before (err e, after) = (err e, before)

unfoldable pub transaction : {A : Type 0} → Action A → Action A
transaction m db = settle db (m db)

-- A proof that runs an action names this, which opens every combinator.
unfoldable pub run : {A : Type 0} → Action A → Db → Result A × Db
unfolding pure raise gets modify raise_if or_raise ◌>>=◌ ◌>>◌ transaction
run m db = m db

-- ===== src/Sessions/Replay.antt =====
-- A request that is repeated under its idempotency key gets the first response again.
use globuy.Prelude.{ℕ, ◌≡◌, Bool, true, Option, some, arith}
use globuy.Sessions.Schema.{Db, from_iso, Text, Response, Operation, create_thread}
use globuy.Sessions.Action.{Action, Result, ok, err, run, settle, continue, ◌>>=◌}
use globuy.Sessions.Rows.{
  user_exists, stored_response, insert_key, insert_run, insert_message, insert_thread, active_row,
}
use globuy.Sessions.Threads.{
  replace_thread, check_current, request_thread, replace_active, open_thread, retire,
}
use globuy.Sessions.Runs.{create_run, request_run, admit_run, write_run}

-- Under the key of a call, the tables hold the response.
abbrev Recalls : ℕ → ℕ → Operation → Response → Db → Type 0
Recalls u request op r db = (user_exists u db ≡ true) × (stored_response u request op db ≡ some r)

-- What an action that returns a response leaves behind.
abbrev Leaves : (Response → Db → Type 0) → Result Response × Db → Type 0
Leaves Q (ok r, db) = Q r db
Leaves Q (err e, db) = Unit {0}

create_run_stored :
    (is_space : ℕ → Bool) (u t r : ℕ) (query : Text) (request message_id created : ℕ)
    (response got : Response) (db : Db)
    → Recalls u request Operation.create_run got db
    → create_run is_space u t r query request message_id created response db ≡ (ok got, db)
unfolding create_run run
create_run_stored is_space u t r query request message_id created response got db h = ground arith

write_run-Recalls :
    (is_space : ℕ → Bool) (u t r : ℕ) (query : Text) (request message_id now : ℕ)
    (response : Response) (db : Db)
    → Leaves
        (Recalls u request Operation.create_run)
        (write_run is_space u t r query request message_id now response db)
unfolding write_run run insert_run insert_message insert_key stored_response user_exists
write_run-Recalls is_space u t r query request message_id now response db = ground arith

settle-Leaves :
    (Q : Response → Db → Type 0) (db : Db) (r : Result Response × Db)
    → Leaves Q r
    → Leaves Q (settle db r)
settle-Leaves Q db (ok r, after) h = h
settle-Leaves Q db (err e, after) h = tt

leaves-eq :
    (Q : Response → Db → Type 0) (r : Result Response × Db) (got : Response) (db : Db)
    → Leaves Q r
    → r ≡ (ok got, db)
    → Q got db
leaves-eq Q r got db h e = let k : Leaves Q (ok got, db) = rw e at h in k

create_run-Recalls :
    (is_space : ℕ → Bool) (u t r : ℕ) (query : Text) (request message_id created : ℕ)
    (response : Response) (db : Db)
    → Leaves
        (Recalls u request Operation.create_run)
        (create_run is_space u t r query request message_id created response db)
unfolding create_run admit_run run
create_run-Recalls is_space u t r query request message_id created response db =
    settle-Leaves (Recalls u request Operation.create_run) db
      (request_run is_space u t r query request message_id created response db)
      (ground (
        arith,
        write_run-Recalls is_space u t r query request message_id (from_iso created) response db,
      ))

-- When a call of create_run has returned, every later call under the same key, whatever its other
-- arguments, returns the same response and changes nothing.
pub create_run_replay :
    (is_space : ℕ → Bool) (u request : ℕ) (t r : ℕ) (query : Text) (message_id created : ℕ)
    (response : Response) (db : Db) {got : Response} {after : Db}
    → create_run is_space u t r query request message_id created response db ≡ (ok got, after)
    → (t' r' : ℕ) (query' : Text) (message_id' created' : ℕ) (response' : Response)
    → create_run is_space u t' r' query' request message_id' created' response' after
      ≡ (ok got, after)
create_run_replay is_space u request t r query message_id created response db {got} {after} e t' r'
      query' message_id' created' response' =
    create_run_stored is_space u t' r' query' request message_id' created' response' got after (
      leaves-eq _ _ got after
        (create_run-Recalls is_space u t r query request message_id created response db) e)

open_thread-Recalls :
    (u request t now : ℕ) (old : Option ℕ × Option ℕ) (db : Db)
    → Leaves (Recalls u request create_thread) (open_thread u request t now old db)
unfolding open_thread run insert_thread insert_key stored_response user_exists
open_thread-Recalls u request t now (old_thread, old_run) db = ground arith

-- Of a bind, what every continuation leaves.
continue-Leaves :
    {A : Type 0} (Q : Response → Db → Type 0) (k : A → Action Response) (r : Result A × Db)
    → ((a : A) (db : Db) → Leaves Q (k a db))
    → Leaves Q (continue k r)
continue-Leaves Q k (ok a, db) h = h a db
continue-Leaves Q k (err e, db) h = tt

replace_active-Recalls :
    (u : ℕ) (current : Option ℕ) (request t now : ℕ) (db : Db)
    → Leaves (Recalls u request create_thread) (replace_active u current request t now db)
unfolding replace_active run
replace_active-Recalls u current request t now db =
    let Q : Response → Db → Type 0 = Recalls u request create_thread in
    let opens : Option ℕ × Option ℕ → Action Response = open_thread u request t now in
    continue-Leaves Q (λ _. retire (active_row u db) now >>= opens)
      (check_current (active_row u db) current db)
      (λ _ between.
        continue-Leaves Q opens (retire (active_row u db) now between)
          (λ old after. open_thread-Recalls u request t now old after))

replace_thread-Recalls :
    (u : ℕ) (current : Option ℕ) (request t now : ℕ) (db : Db)
    → Leaves (Recalls u request create_thread) (replace_thread u current request t now db)
unfolding replace_thread run
replace_thread-Recalls u current request t now db =
    settle-Leaves (Recalls u request create_thread) db (request_thread u current request t now db)
      (ground (arith, replace_active-Recalls u current request t now db))

replace_thread_stored :
    (u : ℕ) (current : Option ℕ) (request t now : ℕ) (got : Response) (db : Db)
    → Recalls u request create_thread got db
    → replace_thread u current request t now db ≡ (ok got, db)
unfolding replace_thread run
replace_thread_stored u current request t now got db h = ground arith

-- The same for replace_thread: a repeated request opens no second thread and archives none.
pub replace_thread_replay :
    (u request : ℕ) (current : Option ℕ) (t now : ℕ) (db : Db) {got : Response} {after : Db}
    → replace_thread u current request t now db ≡ (ok got, after)
    → (current' : Option ℕ) (t' now' : ℕ)
    → replace_thread u current' request t' now' after ≡ (ok got, after)
replace_thread_replay u request current t now db {got} {after} e current' t' now' =
    replace_thread_stored u current' request t' now' got after (
      leaves-eq (Recalls u request create_thread) _ got after
        (replace_thread-Recalls u current request t now db) e)

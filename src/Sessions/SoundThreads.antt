-- ===== src/Sessions/SoundThreads.antt =====
-- recover_after_restart and replace_thread keep the invariant of the tables.
use globuy.Prelude.{
  ℕ, ◌≡◌, refl, Bool, true, false, Option, none, some, ◌∷◌, count_if, arith, find_first-none,
  count_if-update_zero,
}
use globuy.Sessions.Schema.{Db, Text, Thread, Run, IdempotencyKey, is_live, is_terminal}
use globuy.Sessions.Action.{modify, run}
use globuy.Sessions.Rows.{
  is_thread, is_live_run_of, insert_thread, insert_key, update_threads, update_runs, live_run,
  delete_threads,
}
use globuy.Sessions.Threads.{
  recover_after_restart, replace_thread, replace_active, retire, put_away, open_thread,
  archive_thread, check_current, refuse_live, interrupt, shelve, archive, fresh_thread,
}
use globuy.Sessions.Hoare.{
  Yields, Yields-modify, Yields-pure, Yields-raise, Yields-raise_if, Yields-check, Yields-gets,
  Yields-bind, Yields-then, Yields-weaken, Yields-unless_stored, transaction_keeps,
}
use globuy.Sessions.Sound.{
  IsSound, is_active_thread, add_thread-IsSound, other_tables-IsSound, touch_threads-IsSound,
}
use globuy.Sessions.SoundWrites.{
  update_runs-IsSound, shelve_threads-IsSound, delete_threads-IsSound,
}

-- Sound, with no live run anywhere.
abbrev IsStopped : Db → Type 0
IsStopped db = IsSound db × ((t : ℕ) → count_if (is_live_run_of t) db.runs ≡ 0)

interrupt-IsStopped :
    (now : ℕ) (message : Text) (db : Db)
    → IsSound db
    → IsStopped (update_runs (λ r. is_live r.status) (interrupt now message) db)
unfolding is_live is_terminal
interrupt-IsStopped now message db s = (
  update_runs-IsSound (λ r. is_live r.status) (interrupt now message) db (λ x. (refl, refl))
      (λ x h k. cc) (λ x h k. refl) s,
  λ t.
      count_if-update_zero (is_live_run_of t) (λ r. is_live r.status) (interrupt now message)
        db.runs (λ x. ground arith),
)

shelve-IsStopped :
    (now : ℕ) (p : Thread → Bool) (db : Db)
    → IsStopped db
    → IsStopped (update_threads p (shelve now) db)
shelve-IsStopped now p db h = (
  shelve_threads-IsSound p (shelve now) db (λ x. (refl, refl, refl, refl)) (λ x t _ _. h.1 t) h.0,
  h.1,
)

drop-IsSound : (p : Thread → Bool) (db : Db) → IsStopped db → IsSound (delete_threads p db)
drop-IsSound p db h = delete_threads-IsSound p db (λ x t _ _. h.1 t) h.0

pub recover_after_restart-IsSound :
    (now : ℕ) (message : Text) (db : Db)
    → IsSound db
    → IsSound (recover_after_restart now message db).1
unfolding recover_after_restart run
recover_after_restart-IsSound now message db s =
    drop-IsSound _ _ (shelve-IsStopped now _ _ (interrupt-IsStopped now message db s))

-- The keys and the fields that the invariant does not read.
pub insert_key-IsSound : (x : IdempotencyKey) → Yields IsSound (insert_key x) IsSound
unfolding insert_key run
insert_key-IsSound x = record {
  at = λ db h. ground (arith, other_tables-IsSound db.consolidations (x ∷ db.keys) db);
}

pub touch-IsSound :
    (p : Thread → Bool) (f : Thread → Thread)
    → ((x : Thread)
        → ((f x).thread_id ≡ x.thread_id)
          × ((f x).user_id ≡ x.user_id)
          × ((f x).status ≡ x.status)
          × ((f x).active_slot ≡ x.active_slot))
    → Yields IsSound (modify (update_threads p f)) IsSound
touch-IsSound p f same = Yields-modify _ (λ db h. touch_threads-IsSound p f db same h)

-- A thread in place of another.
insert_thread-IsSound :
    (t u now : ℕ) → Yields IsSound (insert_thread (fresh_thread t u now)) IsSound
unfolding insert_thread run
insert_thread-IsSound t u now = record {
  at = λ db s. ground (arith, add_thread-IsSound (fresh_thread t u now) db);
}

quiet_thread :
    (x : Thread) (db : Db)
    → live_run x.thread_id db ≡ none
    → (y : Thread) (t : ℕ) → is_thread x.thread_id y ≡ true
    → is_active_thread t y ≡ true
    → count_if (is_live_run_of t) db.runs ≡ 0
unfolding live_run
quiet_thread x db quiet y t h k =
    let e : t ≡ x.thread_id = ground arith in
    rw e (find_first-none (is_live_run_of x.thread_id) db.runs quiet)

archive_thread-IsSound :
    (x : Thread) (now : ℕ)
    → Yields
        (λ db. IsSound db × (live_run x.thread_id db ≡ none))
        (archive_thread x.thread_id now)
        IsSound
unfolding archive_thread
archive_thread-IsSound x now =
    Yields-then IsSound _ _
      (Yields-modify _ λ db h.
        shelve_threads-IsSound (is_thread x.thread_id) (archive now) db
          (λ y. (refl, refl, refl, refl)) (quiet_thread x db h.1) h.0)
      (Yields-modify _ λ db s. other_tables-IsSound _ db.keys db s)

refuse_live_lem :
    (x : Thread) (busy : Option Run) (P : Db → Type 0)
    → Yields
        (λ db. P db × (live_run x.thread_id db ≡ busy))
        (refuse_live busy)
        (λ db. P db × (live_run x.thread_id db ≡ none))
refuse_live_lem x none P = Yields-pure _ (λ db h. h)
refuse_live_lem x (some r) P = Yields-raise _

put_away-IsSound :
    (occupied : Bool) (x : Thread) (now : ℕ)
    → Yields (λ db. IsSound db × (live_run x.thread_id db ≡ none)) (put_away occupied x now) IsSound
unfolding put_away
put_away-IsSound true x now =
    Yields-then IsSound _ _ (archive_thread-IsSound x now) (Yields-pure _ λ db h. h)
put_away-IsSound false x now =
    Yields-then IsSound _ _
      (Yields-modify _
        λ db h. delete_threads-IsSound (is_thread x.thread_id) db (quiet_thread x db h.1) h.0)
      (Yields-pure _ λ db h. h)

retire-IsSound : (x : Option Thread) (now : ℕ) → Yields IsSound (retire x now) IsSound
unfolding retire
retire-IsSound none now = Yields-pure _ (λ db h. h)
retire-IsSound (some x) now = Yields-gets _ _ λ busy.
    Yields-then _ _ _ (refuse_live_lem x busy IsSound) (
      Yields-gets _ _ λ occupied. Yields-weaken _ _ (λ db h. h.0) (put_away-IsSound occupied x now))

open_thread-IsSound :
    (u request t now : ℕ) (old : Option ℕ × Option ℕ)
    → Yields IsSound (open_thread u request t now old) IsSound
unfolding open_thread
open_thread-IsSound u request t now (old_thread, old_run) =
    Yields-then IsSound _ _ (insert_thread-IsSound t u now)
      (Yields-then IsSound _ _ (insert_key-IsSound _) (Yields-pure _ λ db h. h))

check_current-IsSound :
    (x : Option Thread) (current : Option ℕ) → Yields IsSound (check_current x current) IsSound
check_current-IsSound none none = Yields-pure _ (λ db h. h)
check_current-IsSound none (some t) = Yields-raise _
check_current-IsSound (some x) current = Yields-check _ _

pub replace_thread-IsSound :
    (u : ℕ) (current : Option ℕ) (request t now : ℕ) (db : Db)
    → IsSound db
    → IsSound (replace_thread u current request t now db).1
unfolding replace_thread replace_active
replace_thread-IsSound u current request t now = transaction_keeps IsSound _ (
    Yields-gets _ _ λ known. Yields-raise_if _ _ _ λ _. Yields-gets _ _ λ stored.
      Yields-unless_stored _ _ (λ db h. h.0.0)
        (Yields-gets _ _ λ x.
          Yields-then IsSound _ _
            (Yields-weaken _ _ (λ db h. h.0.0.0) (check_current-IsSound x current))
            (Yields-bind IsSound _ _ (retire-IsSound x now)
              (λ old. open_thread-IsSound u request t now old))))

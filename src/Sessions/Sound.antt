-- ===== src/Sessions/Sound.antt =====
-- The invariant of the session tables, and the writes that keep it.
use globuy.Prelude.{
  ℕ, ◌≤◌, ◌≡◌, refl, Bool, true, false, ◌&&◌, not, none, some, List, [], ◌∷◌, ◌==◌, any, count_if,
  same_option, if◌then◌else◌, arith, any-false, count_if-update,
}
use globuy.Sessions.Schema.{
  Db, Thread, Run, RunResult, Message, Consolidation, IdempotencyKey, is_live, is_terminal,
  is_active, active,
}
use globuy.Sessions.Rows.{is_thread, is_active_of, is_live_run_of, is_message_at, update_threads}

abbrev pub is_active_thread : ℕ → Thread → Bool
is_active_thread t x = is_thread t x && is_active x.status

abbrev pub has_run_id : ℕ → Run → Bool
has_run_id r x = x.run_id == r

abbrev pub is_terminal_run : ℕ → Run → Bool
is_terminal_run r x = x.run_id == r && is_terminal x.status

abbrev pub is_result_of : ℕ → RunResult → Bool
is_result_of r x = x.run_id == r

-- The check constraint on `active_slot`.
abbrev pub breaks_slot : Thread → Bool
breaks_slot x = not (same_option x.active_slot (if is_active x.status then some 1 else none))

-- Does the owner of the thread exist?
abbrev pub lacks_owner : List ℕ → Thread → Bool
lacks_owner users x = not (any (λ u. u == x.user_id) users)

-- What the program relies on: keys are unique, a user has one active thread at most, every run that
-- is not terminal belongs to an active thread and is the only one there, only terminal runs have a
-- result, and no two messages of a thread share
-- an ordinal, and threads belong to users.
pub record IsSound (db : Db) : Type 0 where
  pub thread_key : (t : ℕ) → count_if (is_thread t) db.threads ≤ 1
  pub one_active : (u : ℕ) → count_if (is_active_of u) db.threads ≤ 1
  pub slots : count_if breaks_slot db.threads ≡ 0
  pub owned : count_if (lacks_owner db.users) db.threads ≡ 0
  pub run_key : (r : ℕ) → count_if (has_run_id r) db.runs ≤ 1
  pub live_in_active :
      (t : ℕ) → count_if (is_live_run_of t) db.runs ≤ count_if (is_active_thread t) db.threads
  pub results_terminal :
      (r : ℕ) → count_if (is_result_of r) db.results ≤ count_if (is_terminal_run r) db.runs
  pub ordinals : (t o : ℕ) → count_if (is_message_at t o) db.messages ≤ 1

-- An active thread that has no live run: what a new run needs.
pub record IsIdle (t : ℕ) (db : Db) : Type 0 where
  pub no_live : count_if (is_live_run_of t) db.runs ≡ 0
  pub is_open : 1 ≤ count_if (is_active_thread t) db.threads

pub empty-IsSound :
    (users : List ℕ)
    → IsSound (record {
      users = users;
      threads = [];
      runs = [];
      results = [];
      messages = [];
      consolidations = [];
      keys = [];
    })
empty-IsSound users = record {
  thread_key = λ t. omega arith;
  one_active = λ u. omega arith;
  slots = refl;
  owned = refl;
  run_key = λ r. omega arith;
  live_in_active = λ t. omega arith;
  results_terminal = λ r. omega arith;
  ordinals = λ t o. omega arith;
}

-- A row that counts in one test only where it breaks no slot.
count_active_le_slot :
    (u : ℕ) (xs : List Thread)
    → count_if breaks_slot xs ≡ 0
    → any (λ y. y.user_id == u && same_option y.active_slot (some 1)) xs ≡ false
    → count_if (is_active_of u) xs ≡ 0
count_active_le_slot u [] h k = refl
count_active_le_slot u (x ∷ xs) h k = ground (arith, count_active_le_slot u xs)

pub add_thread-IsSound :
    (x : Thread) (db : Db)
    → x.active_slot ≡ some 1
    → x.status ≡ active
    → any (λ u. u == x.user_id) db.users ≡ true
    → any (is_thread x.thread_id) db.threads ≡ false
    → any (λ y. y.user_id == x.user_id && same_option y.active_slot (some 1)) db.threads ≡ false
    → IsSound db
    → IsSound (record db { threads = x ∷ db.threads })
add_thread-IsSound x db slot act user_known fresh free s = record {
  thread_key = λ t. ground (arith, s.thread_key t, any-false (is_thread x.thread_id) db.threads);
  one_active =
      λ u. ground (arith, s.one_active u, count_active_le_slot x.user_id db.threads s.slots free);
  slots = rw (slot, act) s.slots;
  owned = ground (arith, s.owned);
  run_key = s.run_key;
  live_in_active = λ t. ground (arith, s.live_in_active t);
  results_terminal = s.results_terminal;
  ordinals = s.ordinals;
}

pub add_run-IsSound :
    (x : Run) (db : Db)
    → any (has_run_id x.run_id) db.runs ≡ false
    → IsIdle x.thread_id db
    → IsSound db
    → IsSound (record db { runs = x ∷ db.runs })
unfolding is_live
add_run-IsSound x db fresh idle s = record {
  thread_key = s.thread_key;
  one_active = s.one_active;
  slots = s.slots;
  owned = s.owned;
  run_key = λ r. ground (arith, s.run_key r, any-false (has_run_id x.run_id) db.runs);
  live_in_active = λ t. ground (arith, s.live_in_active t);
  results_terminal = λ r. ground (arith, s.results_terminal r);
  ordinals = s.ordinals;
}

pub add_message-IsSound :
    (x : Message) (db : Db)
    → any (is_message_at x.thread_id x.ordinal) db.messages ≡ false
    → IsSound db
    → IsSound (record db { messages = x ∷ db.messages })
add_message-IsSound x db fresh s = record {
  thread_key = s.thread_key;
  one_active = s.one_active;
  slots = s.slots;
  owned = s.owned;
  run_key = s.run_key;
  live_in_active = s.live_in_active;
  results_terminal = s.results_terminal;
  ordinals = λ t o.
      ground (arith, s.ordinals t o, any-false (is_message_at x.thread_id x.ordinal) db.messages);
}

pub add_result-IsSound :
    (x : RunResult) (db : Db)
    → any (is_result_of x.run_id) db.results ≡ false
    → 1 ≤ count_if (is_terminal_run x.run_id) db.runs
    → IsSound db
    → IsSound (record db { results = x ∷ db.results })
add_result-IsSound x db fresh done s = record {
  thread_key = s.thread_key;
  one_active = s.one_active;
  slots = s.slots;
  owned = s.owned;
  run_key = s.run_key;
  live_in_active = s.live_in_active;
  results_terminal =
      λ r. ground (arith, s.results_terminal r, any-false (is_result_of x.run_id) db.results);
  ordinals = s.ordinals;
}

-- The tables that the invariant does not read.
pub other_tables-IsSound :
    (cs : List Consolidation) (ks : List IdempotencyKey) (db : Db)
    → IsSound db
    → IsSound (record db { consolidations = cs; keys = ks })
other_tables-IsSound cs ks db s = record {
  thread_key = s.thread_key;
  one_active = s.one_active;
  slots = s.slots;
  owned = s.owned;
  run_key = s.run_key;
  live_in_active = s.live_in_active;
  results_terminal = s.results_terminal;
  ordinals = s.ordinals;
}

-- An update that leaves the key, the owner, the status and the slot of a thread alone.
pub touch_threads-IsSound :
    (p : Thread → Bool) (f : Thread → Thread) (db : Db)
    → ((x : Thread)
        → ((f x).thread_id ≡ x.thread_id)
          × ((f x).user_id ≡ x.user_id)
          × ((f x).status ≡ x.status)
          × ((f x).active_slot ≡ x.active_slot))
    → IsSound db
    → IsSound (update_threads p f db)
touch_threads-IsSound p f db same s = record {
  thread_key = λ t.
      rw (count_if-update (is_thread t) p f db.threads (λ x _. ground (arith, same x)))
        (s.thread_key t);
  one_active = λ u.
      rw (count_if-update (is_active_of u) p f db.threads (λ x _. ground (arith, same x)))
        (s.one_active u);
  slots = rw (count_if-update breaks_slot p f db.threads (λ x _. ground (arith, same x))) s.slots;
  owned =
      rw (count_if-update (lacks_owner db.users) p f db.threads (λ x _. rw ((same x).1) refl))
        s.owned;
  run_key = s.run_key;
  live_in_active = λ t.
      rw (count_if-update (is_active_thread t) p f db.threads (λ x _. ground (arith, same x)))
        (s.live_in_active t);
  results_terminal = s.results_terminal;
  ordinals = s.ordinals;
}

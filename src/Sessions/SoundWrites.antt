-- ===== src/Sessions/SoundWrites.antt =====
-- The writes that end a run, and those that archive or delete a thread, keep the invariant.
use globuy.Prelude.{
  ℕ, ◌≤◌, ◌≡◌, refl, Bool, true, false, ◌&&◌, ◌||◌, inl, inr, ◌==◌, any, count_if, Bool-cases,
  arith, count_if-update, count_if-update_le, count_if-update_ge, count_if-delete_le,
  count_if-delete_all, count_if-delete_none, count_if-update_guarded, count_if-delete_guarded,
  ==_iff, count_if-update_le_unless, count_if-update_ge_unless,
}
use globuy.Sessions.Schema.{Db, Thread, Run, is_live, is_terminal, is_active}
use globuy.Sessions.Rows.{
  is_thread, is_active_of, is_live_run_of, is_message_at, update_threads, update_runs,
  delete_threads,
}
use globuy.Sessions.Sound.{
  IsSound, is_active_thread, has_run_id, is_terminal_run, is_result_of, breaks_slot, lacks_owner,
}

-- An update of runs that leaves the keys alone, revives nothing and ends whatever had ended.
pub update_runs-IsSound :
    (p : Run → Bool) (f : Run → Run) (db : Db)
    → ((x : Run) → ((f x).run_id ≡ x.run_id) × ((f x).thread_id ≡ x.thread_id))
    → ((x : Run) → p x ≡ true → is_live (f x).status ≡ true → is_live x.status ≡ true)
    → ((x : Run) → p x ≡ true → is_terminal x.status ≡ true → is_terminal (f x).status ≡ true)
    → IsSound db
    → IsSound (update_runs p f db)
update_runs-IsSound p f db same live done s = record {
  thread_key = s.thread_key;
  one_active = s.one_active;
  slots = s.slots;
  owned = s.owned;
  run_key = λ r.
      rw (count_if-update (has_run_id r) p f db.runs (λ x _. ground (arith, same x))) (s.run_key r);
  live_in_active = λ t. omega (
    arith,
    s.live_in_active t,
    count_if-update_le (is_live_run_of t) p f db.runs (λ x h k. ground (arith, same x, live x h)),
  );
  results_terminal = λ r. omega (
    arith,
    s.results_terminal r,
    count_if-update_ge (is_terminal_run r) p f db.runs (λ x h k. ground (arith, same x, done x h)),
  );
  ordinals = s.ordinals;
}

-- Threads that leave the active state, each without a live run.
pub shelve_threads-IsSound :
    (p : Thread → Bool) (f : Thread → Thread) (db : Db)
    → ((x : Thread)
        → ((f x).thread_id ≡ x.thread_id)
          × ((f x).user_id ≡ x.user_id)
          × (is_active (f x).status ≡ false)
          × (breaks_slot (f x) ≡ false))
    → ((x : Thread) (t : ℕ)
        → p x ≡ true
        → is_active_thread t x ≡ true
        → count_if (is_live_run_of t) db.runs ≡ 0)
    → IsSound db
    → IsSound (update_threads p f db)
shelve_threads-IsSound p f db same quiet s = record {
  thread_key = λ t.
      rw (count_if-update (is_thread t) p f db.threads (λ x _. ground (arith, same x)))
        (s.thread_key t);
  one_active = λ u. omega (
    arith,
    s.one_active u,
    count_if-update_le (is_active_of u) p f db.threads (λ x _ k. ground (arith, same x)),
  );
  slots = omega (
    arith,
    s.slots,
    count_if-update_le breaks_slot p f db.threads (λ x _ k. ground (arith, same x)),
  );
  owned =
      rw (count_if-update (lacks_owner db.users) p f db.threads (λ x _. rw ((same x).1) refl))
        s.owned;
  run_key = s.run_key;
  live_in_active = λ t. omega (
    arith,
    s.live_in_active t,
    count_if-update_guarded (count_if (is_live_run_of t) db.runs) (is_active_thread t) p f
        db.threads (λ x h k. quiet x t h k),
  );
  results_terminal = s.results_terminal;
  ordinals = s.ordinals;
}

-- The same for threads that are deleted, with all that refers to them.
module _ (p : Thread → Bool) (db : Db) where
  abbrev is_doomed : ℕ → Bool
  is_doomed t = any (λ x. x.thread_id == t && p x) db.threads

  abbrev is_doomed_run : ℕ → Bool
  is_doomed_run r = any (λ x. x.run_id == r && is_doomed x.thread_id) db.runs

  delete-results_terminal :
      (r : ℕ)
      → IsSound db
      → count_if (is_result_of r) (delete_threads p db).results
        ≤ count_if (is_terminal_run r) (delete_threads p db).runs
  unfolding delete_threads
  delete-results_terminal r s = elim (Bool-cases (is_doomed_run r)) [
    | inl hit ↦ omega (
      arith,
      count_if-delete_all (is_result_of r) (λ x. is_doomed_run x.run_id) db.results
          (λ x h. rw ((==_iff x.run_id r).0 h) hit),
    )
    | inr miss ↦ omega (
      arith,
      s.results_terminal r,
      count_if-delete_le (is_result_of r) (λ x. is_doomed_run x.run_id) db.results,
      count_if-delete_none (is_terminal_run r) (has_run_id r) (λ x. is_doomed x.thread_id) db.runs
          (λ x h. ground arith) miss,
    )
  ]

  pub delete_threads-IsSound :
      ((x : Thread) (t : ℕ)
        → p x ≡ true
        → is_active_thread t x ≡ true
        → count_if (is_live_run_of t) db.runs ≡ 0)
      → IsSound db
      → IsSound (delete_threads p db)
  unfolding delete_threads
  delete_threads-IsSound quiet s = record {
    thread_key = λ t. omega (arith, s.thread_key t, count_if-delete_le (is_thread t) p db.threads);
    one_active =
        λ u. omega (arith, s.one_active u, count_if-delete_le (is_active_of u) p db.threads);
    slots = omega (arith, s.slots, count_if-delete_le breaks_slot p db.threads);
    owned = omega (arith, s.owned, count_if-delete_le (lacks_owner db.users) p db.threads);
    run_key = λ r. omega (
      arith,
      s.run_key r,
      count_if-delete_le (has_run_id r) (λ x. is_doomed x.thread_id) db.runs,
    );
    live_in_active = λ t. omega (
      arith,
      s.live_in_active t,
      count_if-delete_le (is_live_run_of t) (λ x. is_doomed x.thread_id) db.runs,
      count_if-delete_guarded (count_if (is_live_run_of t) db.runs) (is_active_thread t) p
          db.threads (λ x h k. quiet x t h k),
    );
    results_terminal = λ r. delete-results_terminal r s;
    ordinals = λ t o. omega (
      arith,
      s.ordinals t o,
      count_if-delete_le (is_message_at t o) (λ m. is_doomed m.thread_id || is_doomed_run m.run_id)
          db.messages,
    );
  }

-- A change of the status of runs none of which has ended.
pub move_runs-IsSound :
    (p : Run → Bool) (f : Run → Run) (db : Db)
    → ((x : Run) → ((f x).run_id ≡ x.run_id) × ((f x).thread_id ≡ x.thread_id))
    → any (λ x. p x && is_terminal x.status) db.runs ≡ false
    → IsSound db
    → IsSound (update_runs p f db)
unfolding is_terminal is_live
move_runs-IsSound p f db same young s = record {
  thread_key = s.thread_key;
  one_active = s.one_active;
  slots = s.slots;
  owned = s.owned;
  run_key = λ r.
      rw (count_if-update (has_run_id r) p f db.runs (λ x _. ground (arith, same x))) (s.run_key r);
  live_in_active = λ t. omega (
    arith,
    s.live_in_active t,
    count_if-update_le_unless (is_live_run_of t) p (λ x. is_terminal x.status) f db.runs young
        (λ x h k. ground (arith, same x)),
  );
  results_terminal = λ r. omega (
    arith,
    s.results_terminal r,
    count_if-update_ge_unless (is_terminal_run r) p (λ x. is_terminal x.status) f db.runs young
        (λ x h k. ground (arith, same x)),
  );
  ordinals = s.ordinals;
}

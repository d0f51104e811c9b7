-- ===== src/Memory/Taken.antt =====
-- The messages that a round of the consolidation worker takes, against the rows of the tables, and
-- the thread's row behind the round.
use globuy.Prelude.{
  ℕ, ◌-◌, max, none, some, ◌<◌, ◌≡◌, ◌≤◌, refl, sym, subst, ap, ◌∙◌, Bool, true, false, ◌&&◌, ◌||◌,
  List, [], ◌∷◌, ◌++◌, ◌==◌, ltb, leb, length, any, select_where, count_if, if◌then◌else◌, arith,
  inl, inr, Bool-cases,
}
use globuy.Sessions.Schema.{Db, Message, Consolidation, RunStatus, succeeded}
use globuy.Sessions.Rows.{consolidation_row}
use globuy.Memory.Consolidation.{WorkerConfig, Claim, claim, complete, settle_row}
use globuy.Memory.Late.{if_held_row}
use globuy.Memory.Window.{
  is_open_row, insert_message_row, by_ordinal, member, pick_runs, window_of, open_rows, window,
  Window, Between, last_ordinal, end_round, completed, run_once,
}
use globuy.Memory.Progress.{IsSorted, UpTo, window-Covers}

abbrev pub has_succeeded : RunStatus → Bool
has_succeeded succeeded = true
has_succeeded _ = false

-- A message of the thread behind the cursor, whose run is in the tables as one that succeeded.
abbrev pub is_wanted : ℕ → ℕ → Db → Message → Bool
is_wanted t cursor db m =
    m.thread_id == t
    && ltb cursor m.ordinal
    && any (λ r. r.run_id == m.run_id && has_succeeded r.status) db.runs

-- The runs of messages, each once.
abbrev pub runs_of : List ℕ → List Message → List ℕ
runs_of seen [] = seen
runs_of seen (m ∷ ms) = runs_of (if member m.run_id seen then seen else seen ++ m.run_id ∷ []) ms

count_if-insert :
    (p : Message → Bool) (m : Message) (ms : List Message)
    → count_if p (insert_message_row m ms) ≡ count_if p (m ∷ ms)
count_if-insert p m [] = refl
count_if-insert p m (n ∷ ns) = ground (arith, count_if-insert p m ns)

count_if-by_ordinal :
    (p : Message → Bool) (ms : List Message) → count_if p (by_ordinal ms) ≡ count_if p ms
unfolding by_ordinal
count_if-by_ordinal p [] = refl
count_if-by_ordinal p (m ∷ ms) =
    count_if-insert p m (by_ordinal ms) ∙ ground (arith, count_if-by_ordinal p ms)

count_if-select :
    (p q : Message → Bool) (ms : List Message)
    → count_if p (select_where q ms) ≡ count_if (λ m. p m && q m) ms
count_if-select p q [] = refl
count_if-select p q (m ∷ ms) = ground (arith, count_if-select p q ms)

member-append : (r x : ℕ) (rs : List ℕ) → member r (rs ++ x ∷ []) ≡ (member r rs || x == r)
member-append r x [] = ground arith
member-append r x (y ∷ rs) = ground (arith, member-append r x rs)

module _ (n : ℕ) (chosen : List ℕ) (m : Message) (ms : List Message) where
  pick_old : member m.run_id chosen ≡ true → pick_runs n chosen (m ∷ ms) ≡ pick_runs n chosen ms
  unfolding pick_runs
  pick_old h = ground (arith, h)

  pick_full :
      member m.run_id chosen ≡ false
      → leb n (length chosen) ≡ true
      → pick_runs n chosen (m ∷ ms) ≡ chosen
  unfolding pick_runs
  pick_full h k = ground (arith, h, k)

  pick_more :
      member m.run_id chosen ≡ false
      → leb n (length chosen) ≡ false
      → pick_runs n chosen (m ∷ ms) ≡ pick_runs n (chosen ++ m.run_id ∷ []) ms
  unfolding pick_runs
  pick_more h k = ground (arith, h, k)

-- What a row whose run is chosen adds.
module _ (chosen runs : List ℕ) (m : Message) (ms : List Message) where
  take_row :
      member m.run_id runs ≡ true
      → select_where (λ x. member x.run_id runs) (m ∷ ms)
        ≡ m ∷ select_where (λ x. member x.run_id runs) ms
  take_row h = rw h refl

  leave_row :
      member m.run_id runs ≡ false
      → select_where (λ x. member x.run_id runs) (m ∷ ms)
        ≡ select_where (λ x. member x.run_id runs) ms
  leave_row h = rw h refl

  runs_of_old : member m.run_id chosen ≡ true → runs_of chosen (m ∷ ms) ≡ runs_of chosen ms
  runs_of_old h = ap (λ b. runs_of (if b then chosen else chosen ++ m.run_id ∷ []) ms) h

  runs_of_new :
      member m.run_id chosen ≡ false
      → runs_of chosen (m ∷ ms) ≡ runs_of (chosen ++ m.run_id ∷ []) ms
  runs_of_new h = ap (λ b. runs_of (if b then chosen else chosen ++ m.run_id ∷ []) ms) h

member_added : (r : ℕ) (rs : List ℕ) → member r (rs ++ r ∷ []) ≡ true
member_added r rs = member-append r r rs ∙ ground arith

-- A run that is chosen is kept.
kept_run :
    (n r : ℕ) (chosen : List ℕ) (ms : List Message)
    → member r chosen ≡ true
    → member r (pick_runs n chosen ms) ≡ true
unfolding pick_runs
kept_run n r chosen [] h = h
kept_run n r chosen (m ∷ ms) h = ground (
  arith,
  kept_run n r chosen ms h,
  kept_run n r (chosen ++ m.run_id ∷ []) ms (member-append r m.run_id chosen ∙ rw h refl),
)

chosen_only :
    (chosen : List ℕ) (ms : List Message)
    → runs_of chosen (select_where (λ m. member m.run_id chosen) ms) ≡ chosen
chosen_only chosen [] = refl
chosen_only chosen (m ∷ ms) = elim (Bool-cases (member m.run_id chosen)) [
  | inl old ↦
      ap (runs_of chosen) (take_row chosen chosen m ms old)
      ∙ runs_of_old chosen chosen m (select_where (λ x. member x.run_id chosen) ms) old
      ∙ chosen_only chosen ms
  | inr new ↦ ap (runs_of chosen) (leave_row chosen chosen m ms new) ∙ chosen_only chosen ms
]

-- The rows of chosen runs.
abbrev taken : List ℕ → List Message → List Message
taken runs ms = select_where (λ m. member m.run_id runs) ms

-- The runs that are chosen are those of the rows that are taken.
runs_of-taken :
    (n : ℕ) (chosen : List ℕ) (ms : List Message)
    → runs_of chosen (taken (pick_runs n chosen ms) ms) ≡ pick_runs n chosen ms
unfolding pick_runs
runs_of-taken n chosen [] = refl
runs_of-taken n chosen (m ∷ ms) = elim (Bool-cases (member m.run_id chosen)) [
  | inl old ↦
      let runs = pick_runs n chosen ms in
      subst (λ rs. runs_of chosen (taken rs (m ∷ ms)) ≡ rs) (sym (pick_old n chosen m ms old))
        (ap (runs_of chosen) (take_row chosen runs m ms (kept_run n m.run_id chosen ms old))
          ∙ runs_of_old chosen runs m (taken runs ms) old
          ∙ runs_of-taken n chosen ms)
  | inr new ↦ elim (Bool-cases (leb n (length chosen))) [
    | inl full ↦
        subst (λ rs. runs_of chosen (taken rs (m ∷ ms)) ≡ rs)
          (sym (pick_full n chosen m ms new full))
          (ap (runs_of chosen) (leave_row chosen chosen m ms new) ∙ chosen_only chosen ms)
    | inr room ↦
        let more = chosen ++ m.run_id ∷ [] in
        let runs = pick_runs n more ms in
        subst (λ rs. runs_of chosen (taken rs (m ∷ ms)) ≡ rs)
          (sym (pick_more n chosen m ms new room))
          (ap (runs_of chosen) (
              take_row chosen runs m ms
                (kept_run n m.run_id more ms (member_added m.run_id chosen)))
            ∙ runs_of_new chosen runs m (taken runs ms) new
            ∙ runs_of-taken n more ms)
  ]
]

-- Fewer runs than allowed: no row is left.
all_taken :
    (n : ℕ) (chosen : List ℕ) (ms : List Message)
    → length (pick_runs n chosen ms) < n
    → taken (pick_runs n chosen ms) ms ≡ ms
unfolding pick_runs
all_taken n chosen [] h = refl
all_taken n chosen (m ∷ ms) h = elim (Bool-cases (member m.run_id chosen)) [
  | inl old ↦
      let e = pick_old n chosen m ms old in
      subst (λ rs. taken rs (m ∷ ms) ≡ m ∷ ms) (sym e)
        (take_row chosen (pick_runs n chosen ms) m ms (kept_run n m.run_id chosen ms old)
          ∙ ap (◌∷◌ m) (all_taken n chosen ms (subst (λ rs. length rs < n) e h)))
  | inr new ↦ elim (Bool-cases (leb n (length chosen))) [
    | inl full ↦
        let few = subst (λ rs. length rs < n) (pick_full n chosen m ms new full) h in
        absurd (ground (arith, few, full))
    | inr room ↦
        let more = chosen ++ m.run_id ∷ [] in
        let e = pick_more n chosen m ms new room in
        subst (λ rs. taken rs (m ∷ ms) ≡ m ∷ ms) (sym e)
          (take_row chosen (pick_runs n more ms) m ms
              (kept_run n m.run_id more ms (member_added m.run_id chosen))
            ∙ ap (◌∷◌ m) (all_taken n more ms (subst (λ rs. length rs < n) e h)))
  ]
]

window_of-messages :
    (t cursor : ℕ) (db : Db) (runs : List ℕ) (ms : List Message)
    → (window_of t cursor db runs ms).messages ≡ ms
window_of-messages t cursor db runs [] = refl
window_of-messages t cursor db runs (m ∷ ms) = refl

window_of-run_count :
    (t cursor : ℕ) (db : Db) (runs : List ℕ) (ms : List Message)
    → runs_of [] ms ≡ runs
    → (window_of t cursor db runs ms).run_count ≡ length runs
window_of-run_count t cursor db runs [] h = ap length h
window_of-run_count t cursor db runs (m ∷ ms) h = refl

open_is_wanted :
    (t cursor : ℕ) (db : Db) (m : Message) → is_open_row t cursor db m ≡ is_wanted t cursor db m
open_is_wanted t cursor db m = refl

-- What a window takes.
pub record Takes (threshold t cursor : ℕ) (db : Db) (w : Window) : Type 0 where
  pub in_order : IsSorted w.messages
  pub up_to : UpTo w.snapshot_ordinal w.messages
  pub counted : w.run_count ≡ length (runs_of [] w.messages)
  pub bounded : w.run_count ≤ threshold
  pub whole_runs :
      (p : Message → Bool)
      → count_if p w.messages
        ≡ count_if
            (λ m. (p m && member m.run_id (runs_of [] w.messages)) && is_wanted t cursor db m)
            db.messages
  pub all_runs :
      w.run_count < threshold
      → (p : Message → Bool)
      → count_if p w.messages ≡ count_if (λ m. p m && is_wanted t cursor db m) db.messages

count_if-open_rows :
    (t cursor : ℕ) (db : Db) (p : Message → Bool)
    → count_if p (open_rows t cursor db)
      ≡ count_if (λ m. p m && is_wanted t cursor db m) db.messages
unfolding open_rows
count_if-open_rows t cursor db p =
    count_if-by_ordinal p (select_where (is_open_row t cursor db) db.messages)
    ∙ count_if-select p (is_open_row t cursor db) db.messages

-- A window has exactly the messages of the thread behind the cursor that are of its runs, each as
-- often as the table has it, where a run that has not succeeded has none; it has them in their
-- order and up to its snapshot. Its runs are as many as it says, at most `run_threshold`, and where
-- they are fewer it has all messages of the thread behind the cursor of runs that succeeded.
pub window-Takes :
    (cfg : WorkerConfig) (t cursor : ℕ) (db : Db)
    → Takes cfg.run_threshold t cursor db (window cfg t cursor db)
unfolding window
window-Takes cfg t cursor db =
    let rows = open_rows t cursor db in
    let runs = pick_runs cfg.run_threshold [] rows in
    let ms = taken runs rows in
    let covers = window-Covers cfg t cursor db in
    let held : (window cfg t cursor db).messages ≡ ms = window_of-messages t cursor db runs ms in
    let first = runs_of-taken cfg.run_threshold [] rows in
    let known : runs_of [] (window cfg t cursor db).messages ≡ runs =
      ap (runs_of []) held ∙ first in
    let number : (window cfg t cursor db).run_count ≡ length runs =
      window_of-run_count t cursor db runs ms first in
    record {
      in_order = covers.2;
      up_to = covers.1;
      counted = number ∙ ap length (sym known);
      bounded = covers.3;
      whole_runs = λ p.
          ap (count_if p) held
          ∙ count_if-select p (λ m. member m.run_id runs) rows
          ∙ count_if-open_rows t cursor db (λ m. p m && member m.run_id runs)
          ∙ ap
              (λ rs.
                count_if (λ m. (p m && member m.run_id rs) && is_wanted t cursor db m) db.messages)
              (sym known);
      all_runs = λ few p.
          ap (count_if p) (held ∙ all_taken cfg.run_threshold [] rows (omega (arith, few, number)))
          ∙ count_if-open_rows t cursor db p;
    }

window_of-snapshot :
    (t cursor : ℕ) (db : Db) (runs : List ℕ) (ms : List Message)
    → (window_of t cursor db runs ms).snapshot_ordinal ≡ last_ordinal cursor ms
window_of-snapshot t cursor db runs [] = refl
window_of-snapshot t cursor db runs (m ∷ ms) = refl

window-snapshot :
    (cfg : WorkerConfig) (t cursor : ℕ) (db : Db)
    → (window cfg t cursor db).snapshot_ordinal
      ≡ last_ordinal cursor (window cfg t cursor db).messages
unfolding window
window-snapshot cfg t cursor db =
    let rows = open_rows t cursor db in
    let runs = pick_runs cfg.run_threshold [] rows in
    let ms = taken runs rows in
    window_of-snapshot t cursor db runs ms
    ∙ ap (last_ordinal cursor) (sym (window_of-messages t cursor db runs ms))

-- A thread's row once `ms` are consolidated, which follow the ordinal `cursor`.
abbrev pub consolidated : ℕ → List Message → ℕ → Consolidation → Consolidation
consolidated cursor ms later c =
    let runs = length (runs_of [] ms) in
    let pending = if runs == 0 then 0 else c.pending_successful_runs - runs in
    record c {
      processed_through_ordinal = max c.processed_through_ordinal (last_ordinal cursor ms);
      pending_successful_runs = pending;
      claimed_at = none;
      claim_token = none;
      attempts = 0;
      last_error_code = none;
      updated_at = later;
      due_at = (if pending == 0 then none else some later);
    }

complete-consolidated :
    (token t snapshot run_count cursor now : ℕ) (ms : List Message) (db : Db) (c : Consolidation)
    → consolidation_row t db ≡ some c
    → c.claim_token ≡ some token
    → snapshot ≡ last_ordinal cursor ms
    → run_count ≡ length (runs_of [] ms)
    → consolidation_row t (complete token t snapshot run_count now db)
      ≡ some (consolidated cursor ms now c)
unfolding complete
complete-consolidated token t snapshot run_count cursor now ms db c row held last number =
    if_held_row token t (settle_row snapshot run_count now) db c row held (λ x. refl)
    ∙ rw (last, number) refl

end_round-consolidated :
    (ms : List Message) (x : Claim) (w : Window) (now : ℕ) (db : Db) (c : Consolidation)
    → consolidation_row x.thread_id db ≡ some c
    → c.claim_token ≡ some x.token
    → w.snapshot_ordinal ≡ last_ordinal x.cursor ms
    → w.run_count ≡ length (runs_of [] ms)
    → let (result, after) = end_round ms x w none now db in
      (result ≡ completed)
      × (consolidation_row x.thread_id after ≡ some (consolidated x.cursor ms now c))
end_round-consolidated [] x w now db c row held last number = (
  refl,
  complete-consolidated x.token x.thread_id x.cursor 0 x.cursor now [] db c row held refl refl,
)
end_round-consolidated (m ∷ ms) x w now db c row held last number = (
  refl,
  complete-consolidated x.token x.thread_id w.snapshot_ordinal w.run_count x.cursor now (m ∷ ms) db
      c row held last number,
)

-- A round that claims a thread, whose manager raises nothing, and whose claim still stands when the
-- manager is done, whatever other tasks have done to the tables behind the claim and meanwhile:
-- it completes. Its window is that of the tables behind the claim. The thread's row then has the
-- last message of the window as its cursor, unless its cursor was behind that already; its pending
-- runs are lowered by the runs of the window, or to none where the window is empty; the claim and the
-- earlier failures are gone, and it is due at once if runs are pending.
pub round_completes :
    (cfg : WorkerConfig) (token now later : ℕ) (others : Between) (db : Db) {x : Claim} {held : Db}
    → claim cfg now token db ≡ (some x, held)
    → let seen = others.behind_claim held in
      let ms = (window cfg x.thread_id x.cursor seen).messages in
      (c : Consolidation)
      → consolidation_row x.thread_id (others.during_manager seen) ≡ some c
      → c.claim_token ≡ some x.token
      → let (result, after) = run_once cfg token now others none later db in
        (result ≡ completed)
        × (consolidation_row x.thread_id after ≡ some (consolidated x.cursor ms later c))
unfolding run_once
round_completes cfg token now later others db {x} {held} h c row stands =
    let seen = others.behind_claim held in
    let w = window cfg x.thread_id x.cursor seen in
    rw h (
      end_round-consolidated w.messages x w later (others.during_manager seen) c row stands
        (window-snapshot cfg x.thread_id x.cursor seen)
        (window-Takes cfg x.thread_id x.cursor seen).counted)

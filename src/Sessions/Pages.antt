-- ===== src/Sessions/Pages.antt =====
-- list_threads and thread_detail of app/database/session_store.py. The artifacts of a run are in
-- Sessions.Artifacts.
use globuy.Prelude.{
  ℕ, ◌+◌, ◌*◌, ◌/◌, ◌%◌, ◌<◌, ◌≡◌, ◌≢◌, Bool, true, false, ◌&&◌, ◌||◌, not, Option, none, some,
  List, [], ◌∷◌, ◌==◌, ltb, leb, length, take, count_if, select_where, if◌then◌else◌, arith,
}
use globuy.Sessions.Schema.{Db, Thread, ThreadStatus, archived, is_active, RunStatus, iso, from_iso}
use globuy.Sessions.Action.{Result, ok, err, invalid_cursor}
use globuy.Sessions.Threads.{last_run_status}

-- What a cursor's base64 text decodes to: a time in milliseconds with a thread, or no such pair.
pub data Cursor : Type 0 where
  behind : (time thread_id : ℕ) → Cursor
  garbled : Cursor

abbrev pub time_or_zero : Option ℕ → ℕ
time_or_zero none = 0
time_or_zero (some n) = n

-- ORDER BY a time and the thread's id, both descending.
abbrev pub precedes : (Thread → ℕ) → Thread → Thread → Bool
precedes key x y = ltb (key y) (key x) || key x == key y && leb y.thread_id x.thread_id

abbrev pub insert_row : (Thread → ℕ) → Thread → List Thread → List Thread
insert_row key x [] = x ∷ []
insert_row key x (y ∷ ys) = if precedes key x y then x ∷ y ∷ ys else y ∷ insert_row key x ys

unfoldable pub newest_first : (Thread → ℕ) → List Thread → List Thread
newest_first key [] = []
newest_first key (x ∷ xs) = insert_row key x (newest_first key xs)

abbrev pub archive_time : Thread → ℕ
archive_time x = time_or_zero x.archived_at

abbrev pub order_of : ThreadStatus → Thread → ℕ
order_of archived x = archive_time x
order_of _ x = x.updated_at

-- The condition that a cursor adds.
unfoldable pub is_behind : ℕ → ℕ → Thread → Bool
unfolding from_iso
is_behind time t x =
    ltb (archive_time x) (from_iso time) || archive_time x == from_iso time && ltb x.thread_id t

pub record ThreadView : Type 0 where
  pub thread : Thread
  pub message_count : ℕ
  pub run_status : Option RunStatus

unfoldable pub thread_view : Db → Thread → ThreadView
unfolding last_run_status
thread_view db x = record {
  thread = x;
  message_count = count_if (λ m. m.thread_id == x.thread_id) db.messages;
  run_status = last_run_status x.last_run_id db;
}

abbrev pub views : Db → List Thread → List ThreadView
views db [] = []
views db (x ∷ xs) = thread_view db x ∷ views db xs

abbrev pub last_cursor : Option Cursor → List Thread → Option Cursor
last_cursor c [] = c
last_cursor c (x ∷ xs) = last_cursor (some (behind (iso (archive_time x)) x.thread_id)) xs

pub record Page : Type 0 where
  pub items : List ThreadView
  pub next_cursor : Option Cursor

abbrev pub has_status : ThreadStatus → Thread → Bool
has_status archived x = not (is_active x.status)
has_status _ x = is_active x.status

abbrev has_cursor : ThreadStatus → Bool
has_cursor archived = true
has_cursor _ = false

-- A page of the rows, and the cursor of its last row where one more row is left.
unfoldable pub page_of : ThreadStatus → ℕ → Db → List Thread → Page
unfolding newest_first
page_of status limit db rows =
    let threads = take (limit + 1) (newest_first (order_of status) rows) in
    record {
      items = views db (take limit threads);
      next_cursor =
          (if ltb limit (length threads) && has_cursor status
            then last_cursor none (take limit threads)
            else none);
    }

abbrev pub is_listed : ℕ → ThreadStatus → Thread → Bool
is_listed u status x = x.user_id == u && has_status status x

unfoldable pub list_threads : ℕ → ThreadStatus → Option Cursor → ℕ → Db → Result Page
unfolding page_of is_behind
list_threads u status none limit db =
    ok (page_of status limit db (select_where (is_listed u status) db.threads))
list_threads u archived (some garbled) limit db = err invalid_cursor
list_threads u archived (some (behind time t)) limit db = ok (
    page_of archived limit db
      (select_where (λ x. is_listed u archived x && is_behind time t x) db.threads))
list_threads u _ (some c) limit db = err invalid_cursor

skip_at :
    (a b x l : ℕ)
    → b < a
    → (a / 1000) * 1000 < b
    → ((ltb b a || a == b && leb x l) ≡ true)
      × ((ltb b ((a / 1000) * 1000) || b == (a / 1000) * 1000 && ltb x l) ≡ false)
skip_at a b x l h k = ground arith

rest_at :
    (n m t x l : ℕ)
    → m ≡ n
    → (ltb t m || t == m && ltb x l) ≡ ((ltb t n || n == t && leb x l) && not (t == n && x == l))
rest_at n m t x l h = ground arith

-- A thread that was archived within the same millisecond as the last one of a page, but at no whole
-- millisecond, is behind no cursor that the page gives, although it was archived before that thread.
pub same_millisecond_is_skipped :
    (last x : Thread) (a b : ℕ)
    → last.archived_at ≡ some a
    → x.archived_at ≡ some b
    → b < a
    → iso a ≡ iso b
    → b % 1000 ≢ 0
    → (precedes archive_time last x ≡ true)
      × (is_behind (iso (archive_time last)) last.thread_id x ≡ false)
unfolding is_behind iso from_iso
same_millisecond_is_skipped last x a b at_a at_b later same inside =
    let above : (a / 1000) * 1000 < b = omega (arith, same, inside) in
    rw (at_a, at_b) (skip_at a b x.thread_id last.thread_id later above)

-- Where the last thread of a page was archived at a whole millisecond, its cursor takes just the
-- threads that come after it in the order of the pages.
cursor_takes_the_rest :
    (last x : Thread)
    → archive_time last % 1000 ≡ 0
    → is_behind (iso (archive_time last)) last.thread_id x ≡ (
        precedes archive_time last x
        && not (archive_time x == archive_time last && x.thread_id == last.thread_id))
unfolding is_behind iso from_iso
cursor_takes_the_rest last x whole =
    let n : ℕ = archive_time last in
    let whole' : (n / 1000) * 1000 ≡ n = omega (arith, whole) in
    rest_at n ((n / 1000) * 1000) (archive_time x) x.thread_id last.thread_id whole'

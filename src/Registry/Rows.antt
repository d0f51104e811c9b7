-- ===== src/Registry/Rows.antt =====
-- The row of one run in the store: live while its task runs, and closed by the first outcome.
use Prim.Native.String.{String}
use globuy.Prelude.{
  ℕ, ◌≡◌, refl, true, false, ◌&&◌, Option, none, some, ◌==◌, any, arith, find_first-some,
  find_first_counts, find_first-update, count_if-any_zero, count_if-disjoint, count_if_mono,
}
use globuy.Sessions.Schema.{Db, Text, Run, RunStatus, is_live, is_terminal}
use globuy.Sessions.Action.{ok, run}
use globuy.Sessions.Rows.{is_run, run_row}
use globuy.Sessions.Runs.{set_run_status, finish_run, StoreConfig, Outcome, mark, close_run}
use globuy.Sessions.Sound.{IsSound, has_run_id}
use globuy.Sessions.SoundRuns.{set_run_status-IsSound}
use globuy.Sessions.Finish.{first_outcome_wins, finish_run_over}

-- Sound tables in which the run has not ended, and the identifier of its answer is unused.
pub record HasLive (t r message_id : ℕ) (db : Db) : Type 0 where
  pub sound : IsSound db
  pub row : Run
  pub found : run_row t r db ≡ some row
  pub live : is_live row.status ≡ true
  pub fresh : any (λ y. y.message_id == message_id) db.messages ≡ false

-- The run has ended with a status.
pub record HasClosed (t r : ℕ) (status : RunStatus) (db : Db) : Type 0 where
  pub row : Run
  pub found : run_row t r db ≡ some row
  pub final : row.status ≡ status
  pub ended : is_terminal status ≡ true

abbrev pub status_of : Option Run → Option RunStatus
status_of none = none
status_of (some x) = some x.status

unfoldable pub row_status : ℕ → ℕ → Db → Option RunStatus
unfolding run_row
row_status t r db = status_of (run_row t r db)

pub HasClosed-row_status :
    (t r : ℕ) (status : RunStatus) (db : Db)
    → HasClosed t r status db
    → row_status t r db ≡ some status
unfolding row_status run_row
HasClosed-row_status t r status db c = rw (c.found, c.final) refl

-- No row of a live run has ended.
pub live_is_young :
    (t r message_id : ℕ) (db : Db)
    → HasLive t r message_id db
    → any (λ x. is_run t r x && is_terminal x.status) db.runs ≡ false
unfolding run_row is_live is_terminal
live_is_young t r message_id db l =
    count_if-any_zero (λ x. is_run t r x && is_terminal x.status) db.runs
      (omega (
        arith,
        l.sound.run_key r,
        find_first_counts (is_run t r) (λ y. has_run_id r y && is_live y.status) db.runs l.row
            l.found (ground (arith, find_first-some (is_run t r) db.runs l.row l.found, l.live)),
        count_if-disjoint (has_run_id r) (λ y. has_run_id r y && is_live y.status)
            (λ y. has_run_id r y && is_terminal y.status) db.runs (λ y h. ground arith)
            (λ y h. ground arith),
        count_if_mono (λ x. is_run t r x && is_terminal x.status)
            (λ y. has_run_id r y && is_terminal y.status) db.runs (λ y h. ground arith),
      ))

live_row-set :
    (t r : ℕ) (status : RunStatus) (code : Option String) (message : Option Text) (now : ℕ)
    (x : Run) (db : Db)
    → run_row t r db ≡ some x
    → run_row t r (set_run_status t r status code message now db).1
      ≡ some (mark status code message now x)
unfolding run_row set_run_status run
live_row-set t r status code message now x db found = ground (
  arith,
  find_first-update (is_run t r) (mark status code message now) db.runs x (λ y h. h) found,
)

messages-set :
    (t r : ℕ) (status : RunStatus) (code : Option String) (message : Option Text) (now : ℕ)
    (db : Db)
    → (set_run_status t r status code message now db).1.messages ≡ db.messages
unfolding set_run_status run
messages-set t r status code message now db = ground arith

set-found :
    (t r : ℕ) (status : RunStatus) (code : Option String) (message : Option Text) (now : ℕ)
    (x : Run) (db : Db)
    → run_row t r db ≡ some x
    → IsSound db
    → (set_run_status t r status code message now db).0 ≡ ok tt
unfolding run_row set_run_status run
set-found t r status code message now x db found s = ground (
  arith,
  find_first-some (is_run t r) db.runs x found,
  s.run_key r,
  count_if_mono (is_run t r) (has_run_id r) db.runs (λ y h. ground arith),
)

-- A run that has not ended takes another status of a run that has not ended.
pub set_run_status-HasLive :
    (t r message_id : ℕ) (status : RunStatus) (now : ℕ) (db : Db)
    → is_live status ≡ true
    → HasLive t r message_id db
    → ((set_run_status t r status none none now db).0 ≡ ok tt)
      × HasLive t r message_id (set_run_status t r status none none now db).1
set_run_status-HasLive t r message_id status now db h l = (
  set-found t r status none none now l.row db l.found l.sound,
  record {
    sound =
        set_run_status-IsSound t r status none none now db (live_is_young t r message_id db l)
          l.sound;
    row = mark status none none now l.row;
    found = live_row-set t r status none none now l.row db l.found;
    live = h;
    fresh = rw (messages-set t r status none none now db) l.fresh;
  },
)

-- The first outcome closes the row.
pub finish_run-HasLive :
    (cfg : StoreConfig) (t r message_id : ℕ) (o : Outcome) (now : ℕ) (db : Db)
    → is_terminal o.status ≡ true
    → o.message_id ≡ message_id
    → HasLive t r message_id db
    → ((finish_run cfg t r o now db).0 ≡ ok tt)
      × HasClosed t r o.status (finish_run cfg t r o now db).1
finish_run-HasLive cfg t r message_id o now db ends same l =
    let won =
      first_outcome_wins cfg t r l.row o now db l.sound l.found l.live ends (rw same l.fresh) o
        now in
    (
      won.0,
      record {
        row = close_run o.status o.error_code o.error_message now l.row;
        found = won.1;
        final = refl;
        ended = ends;
      },
    )

-- A later one changes nothing.
pub finish_run-HasClosed :
    (cfg : StoreConfig) (t r : ℕ) (status : RunStatus) (o : Outcome) (now : ℕ) (db : Db)
    → HasClosed t r status db
    → finish_run cfg t r o now db ≡ (ok tt, db)
finish_run-HasClosed cfg t r status o now db c =
    finish_run_over cfg t r c.row o now db c.found (rw c.final c.ended)

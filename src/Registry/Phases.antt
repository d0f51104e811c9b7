-- ===== src/Registry/Phases.antt =====
-- What the task of a run leaves behind, move by move, where the other tasks leave the run to it.
use globuy.Prelude.{
  ℕ, zero, suc, ◌-◌, ◌≤◌, arith, take, ◌≡◌, refl, ap, Bool, true, false, ◌&&◌, some, List, [], ◌∷◌,
  ◌==◌,
}
use globuy.Sessions.Schema.{Db, RunStatus, running, cancelling, is_terminal, is_live}
use globuy.Sessions.Runs.{StoreConfig, Outcome}
use globuy.Broker.Stream.{
  EventType, Payload, given, text_message_start, text_message_content, ends_run,
}
use globuy.Broker.Table.{EventBroker, publish_to}
use globuy.Broker.Isolation.{to_publish}
use globuy.Registry.Task.{
  Task, Move, set_running, say, open_message, add_delta, finish, end_with, Other, marks_cancelling,
  writes, calls, passes, Turn, mine, others, publishes_event, unless_raised, perform, disturb,
  run_turns, is_error,
}
use globuy.Registry.Streams.{HasOpen, HasOpen-call, EndsNoRun, last_event, publish_ends}
use globuy.Registry.Rows.{
  HasLive, HasClosed, set_run_status-HasLive, finish_run-HasLive, finish_run-HasClosed,
}

-- The run has not ended; its row has; its stream has too.
pub data Phase : Type 0 where
  live : Phase
  closed : RunStatus → Phase
  ended : RunStatus → EventType → Phase

-- Where a move leads.
abbrev pub after : Move → Phase → Phase
after (finish o) live = closed o.status
after (end_with kind body status) (closed σ) = ended σ kind
after _ p = p

abbrev pub after_all : List Move → Phase → Phase
after_all [] p = p
after_all (m ∷ ms) p = after_all ms (after m p)

-- Before the task's own `finish`, which is its `n`th move from here, or behind it, where `n` is 0:
-- what the other tasks leave to the task of a run. None marks the run as cancelling behind its
-- `finish`, none publishes an event that ends the run, and what else they write to the tables keeps
-- what the tables have of the run.
abbrev pub LeavesRun : ℕ → ℕ → ℕ → ℕ → Other → Type 0
LeavesRun t r message_id n marks_cancelling = 1 ≤ n
LeavesRun t r message_id n (writes f) =
    ((db : Db) → HasLive t r message_id db → HasLive t r message_id (f db))
    × ((σ : RunStatus) (db : Db) → HasClosed t r σ db → HasClosed t r σ (f db))
LeavesRun t r message_id n (calls t' r' q) = (t' == t && r' == r) ≡ true → EndsNoRun q
LeavesRun t r message_id n (passes k) = Unit {0}

abbrev pub LeavesOpen : ℕ → ℕ → ℕ → ℕ → List Turn → Type 0
LeavesOpen t r message_id n [] = Unit {0}
LeavesOpen t r message_id n (mine ∷ ts) = LeavesOpen t r message_id (n - 1) ts
LeavesOpen t r message_id n (others o ∷ ts) =
    LeavesRun t r message_id n o × LeavesOpen t r message_id n ts

abbrev IsLive : Phase → Type 0
IsLive live = Unit {0}
IsLive (closed σ) = ⊥
IsLive (ended σ e) = ⊥

-- Moves of which no one before the `n`th closes the row.
abbrev pub Within : ℕ → List Move → Phase → Type 0
Within n [] p = Unit {0}
Within n (m ∷ ms) p = (1 ≤ n → IsLive p) × Within (n - 1) ms (after m p)

pub Within-zero : (n : ℕ) (ms : List Move) (p : Phase) → n ≡ 0 → Within n ms p
Within-zero n [] p h = tt
Within-zero n (m ∷ ms) p h =
    (λ k. absurd (omega (arith, h, k)), Within-zero (n - 1) ms (after m p) (omega (arith, h)))

pub Within-take : (k n : ℕ) (ms : List Move) (p : Phase) → Within n ms p → Within n (take k ms) p
Within-take zero n ms p h = tt
Within-take (suc k) n [] p h = tt
Within-take (suc k) n (m ∷ ms) p h = (h.0, Within-take k (n - 1) ms (after m p) h.1)

module _ (cfg : StoreConfig) (t r message_id : ℕ) where
  -- The moves that are possible in a phase.
  abbrev pub Fits : Move → Phase → Type 0
  Fits m (ended σ e) = ⊥
  Fits set_running live = Unit {0}
  Fits set_running (closed σ) = ⊥
  Fits (say kind body) _ = ends_run kind ≡ false
  Fits (open_message body) _ = Unit {0}
  Fits (add_delta text) _ = Unit {0}
  Fits (finish o) live = (is_terminal o.status ≡ true) × (o.message_id ≡ message_id)
  Fits (finish o) (closed σ) = Unit {0}
  Fits (end_with kind body status) live = ⊥
  Fits (end_with kind body status) (closed σ) = ends_run kind ≡ true

  abbrev pub AllFit : List Move → Phase → Type 0
  AllFit [] p = Unit {0}
  AllFit (m ∷ ms) p = Fits m p × AllFit ms (after m p)

  abbrev pub Holds : Phase → Task → Type 0
  Holds live k = HasLive t r message_id k.world.db × HasOpen t r k.world.broker
  Holds (closed σ) k = HasClosed t r σ k.world.db × HasOpen t r k.world.broker
  Holds (ended σ e) k = HasClosed t r σ k.world.db × (last_event t r k.world.broker ≡ some e)

  -- A publication that ends no run.
  publishes_open :
      (kind : EventType) (body : Payload) (now : ℕ) (b : EventBroker)
      → ends_run kind ≡ false
      → HasOpen t r b
      → HasOpen t r (publish_to t r kind body now b).1
  publishes_open kind body now b h o = HasOpen-call t r t r (to_publish kind body now) b (λ _. h) o

  say-Holds :
      (kind : EventType) (body : Payload) (p : Phase) (k : Task)
      → Fits (say kind body) p
      → Holds p k
      → Holds p (publishes_event cfg t r message_id kind body k)
  say-Holds kind body live k f h = (h.0, publishes_open kind body k.now k.world.broker f h.1)
  say-Holds kind body (closed σ) k f h = (h.0, publishes_open kind body k.now k.world.broker f h.1)
  say-Holds kind body (ended σ e) k f h = absurd f

  finish-Holds :
      (o : Outcome) (p : Phase) (k : Task)
      → Fits (finish o) p
      → Holds p k
      → let (k', raised) = perform cfg t r message_id (finish o) k in
        (raised ≡ false) × Holds (after (finish o) p) k'
  unfolding perform
  finish-Holds o live k f h =
      let won = finish_run-HasLive cfg t r message_id o k.now k.world.db f.0 f.1 h.0 in
      (ap is_error won.0, (won.1, h.1))
  finish-Holds o (closed σ) k f h =
      rw (finish_run-HasClosed cfg t r σ o k.now k.world.db h.0) (refl, h)
  finish-Holds o (ended σ e) k f h = absurd f

  -- A move that fits does not raise, and leads to the next phase.
  perform-Holds :
      (m : Move) (p : Phase) (k : Task)
      → Fits m p
      → Holds p k
      → let (k', raised) = perform cfg t r message_id m k in (raised ≡ false) × Holds (after m p) k'
  unfolding perform ends_run is_live
  perform-Holds set_running live k f h =
      let set = set_run_status-HasLive t r message_id running k.now k.world.db refl h.0 in
      (ap is_error set.0, (set.1, h.1))
  perform-Holds set_running (closed σ) k f h = absurd f
  perform-Holds set_running (ended σ e) k f h = absurd f
  perform-Holds (say kind body) live k f h = (refl, say-Holds kind body live k f h)
  perform-Holds (say kind body) (closed σ) k f h = (refl, say-Holds kind body (closed σ) k f h)
  perform-Holds (say kind body) (ended σ e) k f h = absurd f
  perform-Holds (open_message body) live k f h =
      (refl, say-Holds text_message_start body live k refl h)
  perform-Holds (open_message body) (closed σ) k f h =
      (refl, say-Holds text_message_start body (closed σ) k refl h)
  perform-Holds (open_message body) (ended σ e) k f h = absurd f
  perform-Holds (add_delta text) live k f h =
      (refl, say-Holds text_message_content (given text) live k refl h)
  perform-Holds (add_delta text) (closed σ) k f h =
      (refl, say-Holds text_message_content (given text) (closed σ) k refl h)
  perform-Holds (add_delta text) (ended σ e) k f h = absurd f
  perform-Holds (finish o) p k f h = finish-Holds o p k f h
  perform-Holds (end_with kind body status) live k f h = absurd f
  perform-Holds (end_with kind body status) (closed σ) k f h =
      (refl, (h.0, publish_ends t r kind body k.now k.world.broker f h.1))
  perform-Holds (end_with kind body status) (ended σ e) k f h = absurd f

  -- Another task between two moves.
  disturb-Holds :
      (n : ℕ) (o : Other) (m : Move) (p : Phase) (k : Task)
      → LeavesRun t r message_id n o
      → (1 ≤ n → IsLive p)
      → Fits m p
      → Holds p k
      → Holds p (disturb cfg t r message_id o k)
  unfolding disturb is_live
  disturb-Holds n o m (ended σ e) k a i f h = absurd f
  disturb-Holds n marks_cancelling m live k a i f h =
      ((set_run_status-HasLive t r message_id cancelling k.now k.world.db refl h.0).1, h.1)
  disturb-Holds n marks_cancelling m (closed σ) k a i f h = absurd (i a)
  disturb-Holds n (writes w) m live k a i f h = (a.0 k.world.db h.0, h.1)
  disturb-Holds n (writes w) m (closed σ) k a i f h = (a.1 σ k.world.db h.0, h.1)
  disturb-Holds n (calls t' r' q) m live k a i f h =
      (h.0, HasOpen-call t r t' r' q k.world.broker a h.1)
  disturb-Holds n (calls t' r' q) m (closed σ) k a i f h =
      (h.0, HasOpen-call t r t' r' q k.world.broker a h.1)
  disturb-Holds n (passes d) m live k a i f h = h
  disturb-Holds n (passes d) m (closed σ) k a i f h = h

  -- The rest of a run of moves, behind one that did not raise.
  proceed-Holds :
      (m : Move) (ms : List Move) (p : Phase) (k : Task) (rest : Task → Task × Bool)
      → AllFit (m ∷ ms) p
      → Holds p k
      → ((k' : Task)
          → Holds (after m p) k'
          → ((rest k').1 ≡ false) × Holds (after_all ms (after m p)) (rest k').0)
      → let (k', raised) = perform cfg t r message_id m k in
        let whole = unless_raised raised (rest k') k' in
        (whole.1 ≡ false) × Holds (after_all (m ∷ ms) p) whole.0
  proceed-Holds m ms p k rest f h go =
      let done = perform-Holds m p k f.0 h in rw (done.0) (go _ done.1)

  -- Moves that fit one after the other do not raise, where the other tasks leave the run to its task.
  pub run_turns-Holds :
      (n : ℕ) (ts : List Turn) (ms : List Move) (p : Phase) (k : Task)
      → LeavesOpen t r message_id n ts
      → Within n ms p
      → AllFit ms p
      → Holds p k
      → let (k', raised) = run_turns cfg t r message_id ts ms k in
        (raised ≡ false) × Holds (after_all ms p) k'
  unfolding run_turns
  run_turns-Holds n [] [] p k a i f h = (refl, h)
  run_turns-Holds n (u ∷ ts) [] p k a i f h = (refl, h)
  run_turns-Holds n [] (m ∷ ms) p k a i f h =
      proceed-Holds m ms p k (run_turns cfg t r message_id [] ms) f h
        (λ k' h'. run_turns-Holds (n - 1) [] ms (after m p) k' tt i.1 f.1 h')
  run_turns-Holds n (mine ∷ ts) (m ∷ ms) p k a i f h =
      proceed-Holds m ms p k (run_turns cfg t r message_id ts ms) f h
        (λ k' h'. run_turns-Holds (n - 1) ts ms (after m p) k' a i.1 f.1 h')
  run_turns-Holds n (others o ∷ ts) (m ∷ ms) p k a i f h =
      run_turns-Holds n ts (m ∷ ms) p (disturb cfg t r message_id o k) a.1 i f
        (disturb-Holds n o m p k a.0 i.0 f.0 h)

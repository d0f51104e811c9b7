-- ===== src/Registry/Ends.antt =====
-- How a run ends, in numbers: the phases of a script, its last moves and the moves that may be marked.
use globuy.Prelude.{
  ℕ, zero, suc, ◌+◌, ◌-◌, ◌≤◌, ◌≡◌, refl, ap, ◌∙◌, sym, false, Option, none, some, List, [], ◌∷◌,
  ◌++◌, ltb, leb, length, take, inl, inr, Bool-cases, if◌then◌else◌, arith,
}
use globuy.Sessions.Schema.{RunStatus, succeeded, is_terminal, Text}
use globuy.Sessions.Runs.{StoreConfig, Outcome}
use globuy.Broker.Stream.{EventType, run_finished, ends_run, given, custom, text_message_end}
use globuy.Registry.Final.{missing_text}
use globuy.Registry.Task.{
  World, Task, Move, say, finish, end_with, Stop, by_cancel, by_error, Script, add_deltas,
  concat_text, nonempty_text, outcome, body, stop_status, stop_event, stop_after, handler,
  stop_outcome,
}
use globuy.Registry.Streams.{last_event}
use globuy.Registry.Rows.{HasClosed-row_status, row_status}
use globuy.Registry.Phases.{
  Phase, live, closed, ended, after, after_all, AllFit, Holds, Within, Within-zero, Within-take,
}

-- The chunks of a run and what is missing of its final text.
unfoldable pub delta_count : Script → ℕ
delta_count s =
    length (s.chunks ++ nonempty_text (missing_text s.final_text (concat_text s.chunks)))

-- The status of the row and the event that ends the stream. The row is closed by the fifth move behind
-- the deltas, and three more follow it.
unfoldable pub ending : ℕ → Option (ℕ × Stop) → RunStatus × EventType
ending d none = (succeeded, run_finished)
ending d (some (n, why)) =
    if leb n (d + 4)
    then (stop_status why, stop_event why)
    else if ltb n (d + 8)
    then (succeeded, stop_event why)
    else (succeeded, run_finished)

take-AllFit :
    (cfg : StoreConfig) (t r message_id n : ℕ) (ms : List Move) (p : Phase)
    → AllFit cfg t r message_id ms p
    → AllFit cfg t r message_id (take n ms) p
take-AllFit cfg t r message_id zero ms p f = tt
take-AllFit cfg t r message_id (suc n) [] p f = tt
take-AllFit cfg t r message_id (suc n) (m ∷ ms) p f =
    (f.0, take-AllFit cfg t r message_id n ms (after m p) f.1)

deltas-AllFit :
    (cfg : StoreConfig) (t r message_id : ℕ) (ds : List Text) (ms : List Move)
    → AllFit cfg t r message_id ms live
    → AllFit cfg t r message_id (add_deltas ds ++ ms) live
deltas-AllFit cfg t r message_id [] ms f = f
deltas-AllFit cfg t r message_id (d ∷ ds) ms f = (tt, deltas-AllFit cfg t r message_id ds ms f)

deltas_after :
    (ds : List Text) (ms : List Move) → after_all (add_deltas ds ++ ms) live ≡ after_all ms live
deltas_after [] ms = refl
deltas_after (d ∷ ds) ms = deltas_after ds ms

deltas_length :
    (ds : List Text) (ms : List Move) → length (add_deltas ds ++ ms) ≡ length ds + length ms
deltas_length [] ms = omega arith
deltas_length (d ∷ ds) ms = omega (arith, deltas_length ds ms)

-- The moves behind the deltas.
abbrev last_moves : Outcome → Text → List Move
last_moves o result =
    finish o
    ∷ say text_message_end (given [])
    ∷ say custom (given result)
    ∷ end_with run_finished (given []) none
    ∷ []

abbrev phase_behind : ℕ → ℕ → Phase
phase_behind d n =
    if leb n d
    then live
    else if ltb n (d + 4)
    then closed succeeded
    else ended succeeded run_finished

late_phase : (d n : ℕ) → d + 4 ≤ n → phase_behind d n ≡ ended succeeded run_finished
late_phase d n h = ground (arith, h)

take_nil : (n : ℕ) → take {A = Move} n [] ≡ []
take_nil zero = refl
take_nil (suc n) = refl

last_phase :
    (o : Outcome) (result : Text) (n : ℕ)
    → o.status ≡ succeeded
    → after_all (take n (last_moves o result)) live ≡ phase_behind 0 n
last_phase o result zero h = refl
last_phase o result (suc zero) h = ap closed h
last_phase o result (suc (suc zero)) h = ap closed h
last_phase o result (suc (suc (suc zero))) h = ap closed h
last_phase o result (suc (suc (suc (suc n)))) h =
    rw (take_nil n, h) (sym (late_phase 0 (suc (suc (suc (suc n)))) (omega arith)))

cut_phase :
    (ds : List Text) (o : Outcome) (result : Text) (n : ℕ)
    → o.status ≡ succeeded
    → after_all (take n (add_deltas ds ++ last_moves o result)) live ≡ phase_behind (length ds) n
cut_phase [] o result n h = last_phase o result n h
cut_phase (d ∷ ds) o result zero h = ground arith
cut_phase (d ∷ ds) o result (suc n) h = cut_phase ds o result n h ∙ ground arith

abbrev pub phase_stopped : ℕ → Option (ℕ × Stop) → Phase
phase_stopped d none = ended succeeded run_finished
phase_stopped d (some (n, why)) =
    if leb n (d + 4)
    then live
    else if ltb n (d + 8)
    then closed succeeded
    else ended succeeded run_finished

shift_phase :
    (d n : ℕ) (why : Stop)
    → phase_behind d n ≡ phase_stopped d (some (suc (suc (suc (suc n))), why))
shift_phase d n why = ground arith

abbrev fields_of : Script → List Text
fields_of s = s.chunks ++ nonempty_text (missing_text s.final_text (concat_text s.chunks))

-- The body of the script, cut where it stops.
pub body_phase :
    (cfg : StoreConfig) (t r message_id : ℕ) (s : Script) (stop : Option (ℕ × Stop))
    → after_all (stop_after stop (body cfg t r message_id s.chunks s.final_text s.result)) live
      ≡ phase_stopped (delta_count s) stop
unfolding body delta_count
body_phase cfg t r message_id s none = deltas_after (fields_of s) (
    last_moves (outcome cfg t r message_id succeeded s.final_text (some s.result) false none none)
      s.result)
body_phase cfg t r message_id s (some (zero, why)) = ground arith
body_phase cfg t r message_id s (some (suc zero, why)) = ground arith
body_phase cfg t r message_id s (some (suc (suc zero), why)) = ground arith
body_phase cfg t r message_id s (some (suc (suc (suc zero)), why)) = ground arith
body_phase cfg t r message_id s (some (suc (suc (suc (suc n))), why)) =
    cut_phase (fields_of s)
      (outcome cfg t r message_id succeeded s.final_text (some s.result) false none none) s.result n
      refl
    ∙ shift_phase (delta_count s) n why

pub body-AllFit :
    (cfg : StoreConfig) (t r message_id : ℕ) (s : Script)
    → AllFit cfg t r message_id (body cfg t r message_id s.chunks s.final_text s.result) live
unfolding body ends_run is_terminal
body-AllFit cfg t r message_id s = (
  tt,
  (
    refl,
    (
      refl,
      (
        tt,
        deltas-AllFit cfg t r message_id (fields_of s) _ ((refl, refl), (refl, (refl, (refl, tt)))),
      ),
    ),
  ),
)

pub stop-AllFit :
    (cfg : StoreConfig) (t r message_id : ℕ) (stop : Option (ℕ × Stop)) (ms : List Move)
    → AllFit cfg t r message_id ms live
    → AllFit cfg t r message_id (stop_after stop ms) live
stop-AllFit cfg t r message_id none ms f = f
stop-AllFit cfg t r message_id (some (n, why)) ms f = take-AllFit cfg t r message_id n ms live f

pub body_length :
    (cfg : StoreConfig) (t r message_id : ℕ) (s : Script)
    → length (body cfg t r message_id s.chunks s.final_text s.result) ≡ delta_count s + 8
unfolding body delta_count
body_length cfg t r message_id s = omega (
  arith,
  deltas_length (fields_of s) (
      last_moves (outcome cfg t r message_id succeeded s.final_text (some s.result) false none none)
        s.result),
)

-- What a world shows of a run.
abbrev pub shows : ℕ → ℕ → World → Option RunStatus × Option EventType
shows t r w = (row_status t r w.db, last_event t r w.broker)

pub ended-shows :
    (cfg : StoreConfig) (t r message_id : ℕ) (σ : RunStatus) (e : EventType) (k : Task)
    → Holds cfg t r message_id (ended σ e) k
    → shows t r k.world ≡ (some σ, some e)
ended-shows cfg t r message_id σ e k h = rw (HasClosed-row_status t r σ k.world.db h.0, h.1) refl

pub handler-AllFit :
    (cfg : StoreConfig) (t r message_id : ℕ) (why : Stop) (message : Text) (k : Task)
    → AllFit cfg t r message_id (handler cfg t r message_id why message k) live
      × AllFit cfg t r message_id (handler cfg t r message_id why message k) (closed succeeded)
unfolding handler ends_run is_terminal
handler-AllFit cfg t r message_id by_cancel message k = elim (Bool-cases k.message_started) [
  | inl begun ↦ rw begun (((refl, refl), (refl, (refl, tt))), (tt, (refl, (refl, tt))))
  | inr silent ↦ rw silent (((refl, refl), (refl, tt)), (tt, (refl, tt)))
]
handler-AllFit cfg t r message_id by_error message k = elim (Bool-cases k.message_started) [
  | inl begun ↦ rw begun (((refl, refl), (refl, (refl, tt))), (tt, (refl, (refl, tt))))
  | inr silent ↦ rw silent (((refl, refl), (refl, tt)), (tt, (refl, tt)))
]

pub handler_phase :
    (cfg : StoreConfig) (t r message_id : ℕ) (why : Stop) (message : Text) (k : Task)
    → (after_all (handler cfg t r message_id why message k) live
        ≡ ended (stop_status why) (stop_event why))
      × (after_all (handler cfg t r message_id why message k) (closed succeeded)
          ≡ ended succeeded (stop_event why))
unfolding handler
handler_phase cfg t r message_id by_cancel message k = elim (Bool-cases k.message_started) [
  | inl begun ↦ rw begun (refl, refl)
  | inr silent ↦ rw silent (refl, refl)
]
handler_phase cfg t r message_id by_error message k = elim (Bool-cases k.message_started) [
  | inl begun ↦ rw begun (refl, refl)
  | inr silent ↦ rw silent (refl, refl)
]

-- The number of the task's own moves until its row is closed, from its start and from where its
-- `except` block begins.
abbrev pub closes_at : ℕ → ℕ
closes_at d = d + 5

abbrev pub closes_late : ℕ → Option (ℕ × Stop) → ℕ
closes_late d none = 0
closes_late d (some (n, why)) = if leb n (d + 4) then 1 else 0

finish_Within : (n : ℕ) (o : Outcome) (ms : List Move) → n ≤ 1 → Within n (finish o ∷ ms) live
finish_Within n o ms h = (λ _. tt, Within-zero (n - 1) ms (closed o.status) (omega (arith, h)))

deltas-Within :
    (n : ℕ) (ds : List Text) (o : Outcome) (ms : List Move)
    → n ≤ length ds + 1
    → Within n (add_deltas ds ++ finish o ∷ ms) live
deltas-Within n [] o ms h = finish_Within n o ms (omega (arith, h))
deltas-Within n (d ∷ ds) o ms h = (λ _. tt, deltas-Within (n - 1) ds o ms (omega (arith, h)))

body-Within :
    (cfg : StoreConfig) (t r message_id : ℕ) (s : Script)
    → Within
        (closes_at (delta_count s))
        (body cfg t r message_id s.chunks s.final_text s.result)
        live
unfolding body delta_count
body-Within cfg t r message_id s =
    (λ _. tt, (λ _. tt, (λ _. tt, (λ _. tt, deltas-Within _ (fields_of s) _ _ (omega arith)))))

pub stop-Within :
    (cfg : StoreConfig) (t r message_id : ℕ) (s : Script) (stop : Option (ℕ × Stop))
    → Within
        (closes_at (delta_count s))
        (stop_after stop (body cfg t r message_id s.chunks s.final_text s.result))
        live
stop-Within cfg t r message_id s none = body-Within cfg t r message_id s
stop-Within cfg t r message_id s (some (n, why)) =
    Within-take n _ _ live (body-Within cfg t r message_id s)

pub handler-Within :
    (cfg : StoreConfig) (t r message_id : ℕ) (why : Stop) (message : Text) (k : Task)
    → Within 1 (handler cfg t r message_id why message k) live
      × ((σ : RunStatus) → Within 0 (handler cfg t r message_id why message k) (closed σ))
unfolding handler
handler-Within cfg t r message_id why message k = (
  finish_Within 1 (stop_outcome cfg t r message_id why (concat_text k.deltas) message) _
      (omega arith),
  λ σ. Within-zero 0 (handler cfg t r message_id why message k) (closed σ) refl,
)

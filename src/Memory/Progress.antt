-- ===== src/Memory/Progress.antt =====
-- The order and the bounds of the messages that a round of the consolidation worker takes.
use globuy.Prelude.{
  ℕ, ◌≤◌, ◌<◌, Bool, List, [], ◌∷◌, ◌++◌, select_where, length, length-append, arith, inl, inr,
  Bool-cases,
}
use globuy.Sessions.Schema.{Db, Message}
use globuy.Memory.Consolidation.{WorkerConfig}
use globuy.Memory.Window.{
  is_open_row, insert_message_row, by_ordinal, member, pick_runs, last_ordinal, window_of,
  open_rows, window, Window,
}

-- Every row lies behind the cursor.
abbrev pub Behind : ℕ → List Message → Type 0
Behind n [] = Unit {0}
Behind n (m ∷ ms) = (n < m.ordinal) × Behind n ms

-- Every row lies at or before a number.
abbrev pub UpTo : ℕ → List Message → Type 0
UpTo n [] = Unit {0}
UpTo n (m ∷ ms) = (m.ordinal ≤ n) × UpTo n ms

abbrev pub AtLeast : ℕ → List Message → Type 0
AtLeast n [] = Unit {0}
AtLeast n (m ∷ ms) = (n ≤ m.ordinal) × AtLeast n ms

abbrev pub IsSorted : List Message → Type 0
IsSorted [] = Unit {0}
IsSorted (m ∷ ms) = AtLeast m.ordinal ms × IsSorted ms

AtLeast-mono : (a b : ℕ) (ms : List Message) → a ≤ b → AtLeast b ms → AtLeast a ms
AtLeast-mono a b [] h k = tt
AtLeast-mono a b (m ∷ ms) h k = (omega (arith, k.0), AtLeast-mono a b ms h k.1)

AtLeast-insert :
    (a : ℕ) (m : Message) (ms : List Message)
    → a ≤ m.ordinal
    → AtLeast a ms
    → AtLeast a (insert_message_row m ms)
AtLeast-insert a m [] h k = (h, tt)
AtLeast-insert a m (n ∷ ns) h k = ground (arith, AtLeast-insert a m ns h k.1)

insert-IsSorted :
    (m : Message) (ms : List Message) → IsSorted ms → IsSorted (insert_message_row m ms)
insert-IsSorted m [] h = (tt, tt)
insert-IsSorted m (n ∷ ns) h = ground (
  arith,
  insert-IsSorted m ns h.1,
  AtLeast-insert n.ordinal m ns,
  AtLeast-mono m.ordinal n.ordinal ns,
)

by_ordinal-IsSorted : (ms : List Message) → IsSorted (by_ordinal ms)
unfolding by_ordinal
by_ordinal-IsSorted [] = tt
by_ordinal-IsSorted (m ∷ ms) = insert-IsSorted m (by_ordinal ms) (by_ordinal-IsSorted ms)

Behind-insert :
    (a : ℕ) (m : Message) (ms : List Message)
    → a < m.ordinal
    → Behind a ms
    → Behind a (insert_message_row m ms)
Behind-insert a m [] h k = (h, tt)
Behind-insert a m (n ∷ ns) h k = ground (arith, Behind-insert a m ns h k.1)

Behind-open_rows :
    (t cursor : ℕ) (db : Db) (ms : List Message)
    → Behind cursor (by_ordinal (select_where (is_open_row t cursor db) ms))
unfolding by_ordinal
Behind-open_rows t cursor db [] = tt
Behind-open_rows t cursor db (m ∷ ms) = elim (Bool-cases (is_open_row t cursor db m)) [
  | inl taken ↦ rw taken (Behind-insert cursor m _ (ground arith) (Behind-open_rows t cursor db ms))
  | inr left ↦ rw left (Behind-open_rows t cursor db ms)
]

Behind-select :
    (p : Message → Bool) (a : ℕ) (ms : List Message) → Behind a ms → Behind a (select_where p ms)
Behind-select p a [] h = tt
Behind-select p a (m ∷ ms) h = ground (arith, Behind-select p a ms h.1)

AtLeast-select :
    (p : Message → Bool) (a : ℕ) (ms : List Message) → AtLeast a ms → AtLeast a (select_where p ms)
AtLeast-select p a [] h = tt
AtLeast-select p a (m ∷ ms) h = ground (arith, AtLeast-select p a ms h.1)

select-IsSorted :
    (p : Message → Bool) (ms : List Message) → IsSorted ms → IsSorted (select_where p ms)
select-IsSorted p [] h = tt
select-IsSorted p (m ∷ ms) h =
    ground (arith, select-IsSorted p ms h.1, AtLeast-select p m.ordinal ms h.0)

last_bounds :
    (n : ℕ) (ms : List Message)
    → AtLeast n ms
    → IsSorted ms
    → (n ≤ last_ordinal n ms) × UpTo (last_ordinal n ms) ms
last_bounds n [] h k = (omega arith, tt)
last_bounds n (m ∷ ms) h k =
    let rest = last_bounds m.ordinal ms k.0 k.1 in (omega (arith, h.0, rest.0), (rest.0, rest.1))

length-pick_runs :
    (n : ℕ) (chosen : List ℕ) (ms : List Message)
    → length chosen ≤ n
    → length (pick_runs n chosen ms) ≤ n
unfolding pick_runs
length-pick_runs n chosen [] h = h
length-pick_runs n chosen (m ∷ ms) h = ground (
  arith,
  length-pick_runs n chosen ms h,
  length-append chosen (m.run_id ∷ []),
  length-pick_runs n (chosen ++ m.run_id ∷ []) ms,
)

-- What is known of every window.
abbrev pub Covers : ℕ → ℕ → Window → Type 0
Covers threshold cursor w =
    Behind cursor w.messages
    × UpTo w.snapshot_ordinal w.messages
    × IsSorted w.messages
    × (w.run_count ≤ threshold)
    × (cursor ≤ w.snapshot_ordinal)

Behind-AtLeast : (n : ℕ) (ms : List Message) → Behind n ms → AtLeast n ms
Behind-AtLeast n [] h = tt
Behind-AtLeast n (m ∷ ms) h = (omega (arith, h.0), Behind-AtLeast n ms h.1)

window_of-Covers :
    (n t cursor : ℕ) (db : Db) (runs : List ℕ) (ms : List Message)
    → length runs ≤ n
    → Behind cursor ms
    → IsSorted ms
    → Covers n cursor (window_of t cursor db runs ms)
window_of-Covers n t cursor db runs [] few behind sorted = (tt, tt, tt, omega arith, omega arith)
window_of-Covers n t cursor db runs (m ∷ ms) few behind sorted =
    let last = last_bounds cursor (m ∷ ms) (Behind-AtLeast cursor (m ∷ ms) behind) sorted in
    (behind, last.1, sorted, few, last.0)

pub window-Covers :
    (cfg : WorkerConfig) (t cursor : ℕ) (db : Db)
    → Covers cfg.run_threshold cursor (window cfg t cursor db)
unfolding window open_rows
window-Covers cfg t cursor db =
    let rows = open_rows t cursor db in
    let runs = pick_runs cfg.run_threshold [] rows in
    let p : Message → Bool = λ m. member m.run_id runs in
    window_of-Covers cfg.run_threshold t cursor db runs (select_where p rows)
      (length-pick_runs cfg.run_threshold [] rows (omega arith))
      (Behind-select p cursor rows (Behind-open_rows t cursor db db.messages))
      (select-IsSorted p rows
        (by_ordinal-IsSorted (select_where (is_open_row t cursor db) db.messages)))

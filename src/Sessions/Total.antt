-- ===== src/Sessions/Total.antt =====
-- Total correctness of actions: the action returns, and its tables satisfy the postcondition.
use globuy.Prelude.{◌≡◌, refl}
use globuy.Sessions.Schema.{Db}
use globuy.Sessions.Action.{Action, Result, ok, err, gets, modify, continue, run, ◌>>=◌, ◌>>◌}

abbrev pub Succeeds : {A : Type 0} → (Db → Type 0) → Result A × Db → Type 0
Succeeds Q (ok a, db) = Q db
Succeeds Q (err e, db) = ⊥

pub record Ensures {A : Type 0} (P : Db → Type 0) (m : Action A) (Q : Db → Type 0) : Type 0 where
  pub at : (db : Db) → P db → Succeeds Q (m db)

pub Ensures-modify :
    {P R : Db → Type 0} (f : Db → Db) → ((db : Db) → P db → R (f db)) → Ensures P (modify f) R
unfolding run
Ensures-modify f h = record { at = h }

pub Ensures-gets :
    {P R : Db → Type 0} {A B : Type 0} (f : Db → A) (k : A → Action B)
    → ((a : A) → Ensures (λ db. P db × (f db ≡ a)) (k a) R)
    → Ensures P (gets f >>= k) R
unfolding run
Ensures-gets f k h = record { at = λ db p. (h (f db)).at db (p, refl) }

continue-Succeeds :
    (Q R : Db → Type 0) {A B : Type 0} (r : Result A × Db) (k : A → Action B)
    → Succeeds Q r
    → ((a : A) (db : Db) → Q db → Succeeds R (k a db))
    → Succeeds R (continue k r)
continue-Succeeds Q R (ok a, after) k g h = h a after g
continue-Succeeds Q R (err x, after) k g h = g

pub Ensures-then :
    {P R : Db → Type 0} (Q : Db → Type 0) {B : Type 0} (m : Action (Unit {0})) (k : Action B)
    → Ensures P m Q
    → Ensures Q k R
    → Ensures P (m >> k) R
unfolding run
Ensures-then {R} Q m k y z = record {
  at = λ db p. continue-Succeeds Q R (m db) (λ _. k) (y.at db p) (λ a after q. z.at after q);
}

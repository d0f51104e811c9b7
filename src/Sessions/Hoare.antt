-- ===== src/Sessions/Hoare.antt =====
-- Postconditions of actions: what holds of the tables when an action returns. An action that raises
-- promises nothing, since its transaction rolls back.
use globuy.Prelude.{◌≡◌, refl, Bool, true, false, Option, none, some, if◌then◌else◌}
use globuy.Sessions.Schema.{Db, Response}
use globuy.Sessions.Action.{
  Action, Error, Result, ok, err, pure, raise, gets, modify, raise_if, or_raise, continue, settle,
  run, transaction, ◌>>=◌, ◌>>◌,
}
use globuy.Sessions.Threads.{unless_stored}

abbrev pub Good : {A : Type 0} → (Db → Type 0) → Result A × Db → Type 0
Good Q (ok a, db) = Q db
Good Q (err e, db) = Unit {0}

pub record Yields {A : Type 0} (P : Db → Type 0) (m : Action A) (Q : Db → Type 0) : Type 0 where
  pub at : (db : Db) → P db → Good Q (m db)

module _ {P R : Db → Type 0} where
  pub Yields-modify : (f : Db → Db) → ((db : Db) → P db → R (f db)) → Yields P (modify f) R
  unfolding run
  Yields-modify f h = record { at = h }

  module _ {A : Type 0} where
    pub Yields-pure : (a : A) → ((db : Db) → P db → R db) → Yields P (pure a) R
    unfolding run
    Yields-pure a h = record { at = h }

    pub Yields-raise : (e : Error) → Yields P (raise {A = A} e) R
    unfolding run
    Yields-raise e = record { at = λ db p. tt }

    pub Yields-raise_if :
        (b : Bool) (e : Error) (k : Action A)
        → (b ≡ false → Yields P k R)
        → Yields P (raise_if b e >> k) R
    unfolding run
    Yields-raise_if true e k h = record { at = λ db p. tt }
    Yields-raise_if false e k h = record { at = λ db p. (h refl).at db p }

    pub Yields-if :
        (b : Bool) {m n : Action A}
        → (b ≡ true → Yields P m R)
        → (b ≡ false → Yields P n R)
        → Yields P (if b then m else n) R
    Yields-if true g h = g refl
    Yields-if false g h = h refl

  module _ {A B : Type 0} where
    -- What a query returns is known of the tables that it read.
    pub Yields-gets :
        (f : Db → A) (k : A → Action B)
        → ((a : A) → Yields (λ db. P db × (f db ≡ a)) (k a) R)
        → Yields P (gets f >>= k) R
    unfolding run
    Yields-gets f k h = record { at = λ db p. (h (f db)).at db (p, refl) }

    pub Yields-or_raise :
        (o : Option A) (e : Error) (k : A → Action B)
        → ((a : A) → o ≡ some a → Yields P (k a) R)
        → Yields P (or_raise o e >>= k) R
    unfolding run
    Yields-or_raise none e k h = record { at = λ db p. tt }
    Yields-or_raise (some a) e k h = record { at = λ db p. (h a refl).at db p }

continue-Good :
    (Q R : Db → Type 0) {A B : Type 0} (r : Result A × Db) (k : A → Action B)
    → Good Q r
    → ((a : A) (db : Db) → Q db → Good R (k a db))
    → Good R (continue k r)
continue-Good Q R (ok a, after) k g h = h a after g
continue-Good Q R (err x, after) k g h = tt

pub Yields-bind :
    {P R : Db → Type 0} (Q : Db → Type 0) {A B : Type 0} (m : Action A) (k : A → Action B)
    → Yields P m Q
    → ((a : A) → Yields Q (k a) R)
    → Yields P (m >>= k) R
unfolding run
Yields-bind {R} Q m k y z = record {
  at = λ db p. continue-Good Q R (m db) k (y.at db p) (λ a after q. (z a).at after q);
}

pub Yields-then :
    {P R : Db → Type 0} (Q : Db → Type 0) {B : Type 0} (m : Action (Unit {0})) (k : Action B)
    → Yields P m Q
    → Yields Q k R
    → Yields P (m >> k) R
unfolding run
Yields-then {R} Q m k y z = record {
  at = λ db p. continue-Good Q R (m db) (λ _. k) (y.at db p) (λ a after q. z.at after q);
}

pub Yields-weaken :
    {P R : Db → Type 0} (Q : Db → Type 0) {A : Type 0} (m : Action A)
    → ((db : Db) → P db → Q db)
    → Yields Q m R
    → Yields P m R
Yields-weaken Q m h y = record { at = λ db p. y.at db (h db p) }

pub Yields-check : {P : Db → Type 0} (b : Bool) (e : Error) → Yields P (raise_if b e) P
unfolding run
Yields-check true e = record { at = λ db p. tt }
Yields-check false e = record { at = λ db p. p }

pub Yields-unless_stored :
    {P R : Db → Type 0} (o : Option Response) (m : Action Response)
    → ((db : Db) → P db → R db)
    → Yields P m R
    → Yields P (unless_stored o m) R
unfolding pure
Yields-unless_stored none m h y = y
Yields-unless_stored (some r) m h y = record { at = h }

settle_keeps :
    (P : Db → Type 0) {A : Type 0} (db : Db) (r : Result A × Db)
    → P db
    → Good P r
    → P (settle db r).1
settle_keeps P db (ok a, after) p g = g
settle_keeps P db (err x, after) p g = p

-- An invariant that a transaction's body restores survives the transaction, committed or not.
pub transaction_keeps :
    (P : Db → Type 0) {A : Type 0} (m : Action A)
    → Yields P m P
    → (db : Db) → P db
    → P (transaction m db).1
unfolding run
transaction_keeps P m y db p = settle_keeps P db (m db) p (y.at db p)

settle_err :
    {A : Type 0} (db : Db) (e : Error) (r : Result A × Db)
    → (settle db r).0 ≡ err e
    → (settle db r).1 ≡ db
settle_err db e (ok a, after) h = cc
settle_err db e (err x, after) h = refl

-- A transaction that raises leaves every table as it was.
pub transaction_rolls_back :
    {A : Type 0} (m : Action A) (db : Db) (e : Error)
    → (transaction m db).0 ≡ err e
    → (transaction m db).1 ≡ db
unfolding run
transaction_rolls_back m db e h = settle_err db e (m db) h

-- ===== src/Memory/Claims.antt =====
-- What a claim leaves: the row of a thread with the worker's token.
use globuy.Prelude.{
  ℕ, ◌≤◌, ◌≡◌, refl, Option, none, some, List, [], ◌∷◌, ◌==◌, find_first, count_if, update_where,
  inl, inr, Option-cases, arith, Bool-cases,
}
use globuy.Sessions.Schema.{Db, Consolidation}
use globuy.Sessions.Rows.{update_consolidations}
use globuy.Memory.Consolidation.{next_due, Claim, is_of, hold, claim_row}

-- The row that a claim takes is a row of the table.
pub next_due_found :
    (lease now : ℕ) (cs : List Consolidation) (c : Consolidation)
    → next_due lease now cs ≡ some c
    → 1 ≤ count_if (is_of c.thread_id) cs
unfolding next_due
next_due_found lease now [] c h = cc
next_due_found lease now (d ∷ cs) c h = elim (Option-cases (next_due lease now cs)) [
  | inl empty ↦ ground arith
  | inr (e, found) ↦ ground (arith, next_due_found lease now cs e found)
]

pub claim_row-some :
    (now token : ℕ) (o : Option Consolidation) (db : Db) {x : Claim} {after : Db}
    → claim_row now token o db ≡ (some x, after)
    → (c : Consolidation) × (o ≡ some c)
      × (x.thread_id ≡ c.thread_id)
      × (after ≡ update_consolidations (is_of c.thread_id) (hold now token) db)
      × (x.token ≡ token)
claim_row-some now token none db h = cc
claim_row-some now token (some c) db h = (c, refl, cc, cc, cc)

pub held_row :
    (t now token : ℕ) (cs : List Consolidation)
    → 1 ≤ count_if (is_of t) cs
    → (c : Consolidation) × (find_first (is_of t) (update_where (is_of t) (hold now token) cs)
        ≡ some c)
      × (c.claim_token ≡ some token)
held_row t now token [] h = absurd (omega arith)
held_row t now token (c ∷ cs) h = elim (Bool-cases (c.thread_id == t)) [
  | inl here ↦ (hold now token c, rw here (rw here refl), refl)
  | inr there ↦
      let (d, found, kept) = held_row t now token cs (ground arith) in
      (d, rw there (rw there found), kept)
]

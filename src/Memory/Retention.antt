-- ===== src/Memory/Retention.antt =====
-- How long the rounds of the consolidation worker keep a row of the memory history.
use globuy.Prelude.{
  ℕ, ◌+◌, ◌≤◌, ◌<◌, ◌≡◌, refl, sym, ap, ◌∙◌, Bool, true, false, not, none, some, List, [], ◌∷◌,
  ◌++◌, leb, all, select_where, delete_where, arith, inl, inr, Bool-cases, all-impl, all-append,
}
use mathlib.Core.List.{append_assoc, append-nil}
use globuy.Memory.Entries.{MemoryHistory}
use globuy.Memory.Consolidation.{WorkerConfig}
use globuy.Memory.History.{
  one_day, is_outdated, cleanup_history, WorkerState, is_cleanup_due, clean_up, Round, work,
  after_others, serve_rounds,
}

-- The clock goes on from round to round, and the rows that others write are written in between.
abbrev pub InTime : ℕ → ℕ → List Round → Type 0
InTime until since [] = Unit {0}
InTime until since (r ∷ rs) =
    (since ≤ r.now)
    × (r.now ≤ r.cleaned_at)
    × (r.cleaned_at ≤ until)
    × (all (λ h. leb since h.created_at) r.added ≡ true)
    × InTime until r.now rs

-- When the last of the rounds began.
abbrev pub last_now : ℕ → List Round → ℕ
last_now since [] = since
last_now since (r ∷ rs) = last_now r.now rs

abbrev pub all_added : List Round → List MemoryHistory
all_added [] = []
all_added (r ∷ rs) = r.added ++ all_added rs

abbrev pub is_within : ℕ → ℕ → MemoryHistory → Bool
is_within age now h = leb now (h.created_at + age)

module _ (retention : ℕ) where
  -- No row is older than the retention was at the last cleanup, which is less than a day ago.
  record Kept (now last : ℕ) (s : WorkerState) : Type 0 where
    noted : s.last_cleanup_at ≡ some last
    past : last ≤ now
    recent : now < last + one_day
    rows : all (is_within retention last) s.history ≡ true

  left_within :
      (now at : ℕ) (rows : List MemoryHistory)
      → now ≤ at
      → all (is_within retention now) (delete_where (is_outdated retention at) rows) ≡ true
  left_within now at [] h = refl
  left_within now at (x ∷ rows) h = ground (arith, left_within now at rows)

  cleaned-Kept :
      (cfg : WorkerConfig) (r : Round) (s : WorkerState)
      → r.now ≤ r.cleaned_at
      → r.cleanup_raises ≡ false
      → is_cleanup_due r.now s.last_cleanup_at ≡ true
      → Kept r.now r.now (work cfg retention r s).1
  unfolding work clean_up cleanup_history
  cleaned-Kept cfg r s later calm due = record {
    noted = rw due refl;
    past = omega arith;
    recent = omega arith;
    rows = rw (due, calm) (left_within r.now r.cleaned_at s.history later);
  }

  waited-Kept :
      (cfg : WorkerConfig) (since last : ℕ) (r : Round) (s : WorkerState)
      → since ≤ r.now
      → all (λ h. leb since h.created_at) r.added ≡ true
      → is_cleanup_due r.now (some last) ≡ false
      → Kept since last s
      → Kept r.now last (work cfg retention r (after_others r s)).1
  unfolding work clean_up
  waited-Kept cfg since last r s later new early k =
      let before = k.past in
      let noted : is_cleanup_due r.now s.last_cleanup_at ≡ false = rw k.noted early in
      let added : all (is_within retention last) r.added ≡ true =
        all-impl (λ h. leb since h.created_at) (is_within retention last) r.added
          (λ h e. ground arith) new in
      record {
        noted = rw noted k.noted;
        past = omega arith;
        recent = ground arith;
        rows = rw noted (all-append (is_within retention last) s.history r.added k.rows added);
      }

  round-Kept :
      (cfg : WorkerConfig) (since last : ℕ) (r : Round) (s : WorkerState)
      → since ≤ r.now
      → r.now ≤ r.cleaned_at
      → all (λ h. leb since h.created_at) r.added ≡ true
      → r.cleanup_raises ≡ false
      → Kept since last s
      → (next : ℕ) × Kept r.now next (work cfg retention r (after_others r s)).1
  round-Kept cfg since last r s later cleaned new calm k =
      elim (Bool-cases (is_cleanup_due r.now (some last))) [
        | inl due ↦ (r.now, cleaned-Kept cfg r (after_others r s) cleaned calm (rw k.noted due))
        | inr early ↦ (last, waited-Kept cfg since last r s later new early k)
      ]

  rounds-Kept :
      (cfg : WorkerConfig) (until since last : ℕ) (rs : List Round) (s : WorkerState)
      → InTime until since rs
      → all (λ r. not r.cleanup_raises) rs ≡ true
      → Kept since last s
      → (next : ℕ) × Kept (last_now since rs) next (serve_rounds cfg retention rs s)
  unfolding serve_rounds
  rounds-Kept cfg until since last [] s times calm k = (last, k)
  rounds-Kept cfg until since last (r ∷ rs) s times calm k =
      let (next, kept) = round-Kept cfg since last r s times.0 times.1 times.3 (ground arith) k in
      rounds-Kept cfg until r.now next rs (work cfg retention r (after_others r s)).1 times.4
        (ground arith) kept

  select-append :
      (p : MemoryHistory → Bool) (xs ys : List MemoryHistory)
      → select_where p (xs ++ ys) ≡ select_where p xs ++ select_where p ys
  select-append p [] ys = refl
  select-append p (x ∷ xs) ys = ground (arith, select-append p xs ys)

  select-cleaned :
      (at until : ℕ) (rows : List MemoryHistory)
      → at ≤ until
      → select_where (is_within retention until) (delete_where (is_outdated retention at) rows)
        ≡ select_where (is_within retention until) rows
  select-cleaned at until [] h = refl
  select-cleaned at until (x ∷ rows) h = ground (arith, select-cleaned at until rows)

  select-work :
      (cfg : WorkerConfig) (until : ℕ) (r : Round) (s : WorkerState)
      → r.cleaned_at ≤ until
      → select_where (is_within retention until) (work cfg retention r s).1.history
        ≡ select_where (is_within retention until) s.history
  unfolding work clean_up cleanup_history
  select-work cfg until r s h = elim (Bool-cases (is_cleanup_due r.now s.last_cleanup_at)) [
    | inr early ↦ rw early refl
    | inl due ↦ elim (Bool-cases r.cleanup_raises) [
      | inl raised ↦ rw (due, raised) refl
      | inr calm ↦ rw (due, calm) (select-cleaned r.cleaned_at until s.history h)
    ]
  ]

  select-rounds :
      (cfg : WorkerConfig) (until since : ℕ) (rs : List Round) (s : WorkerState)
      → InTime until since rs
      → select_where (is_within retention until) (serve_rounds cfg retention rs s).history
        ≡ select_where (is_within retention until) (s.history ++ all_added rs)
  unfolding serve_rounds
  select-rounds cfg until since [] s times = rw append-nil refl
  select-rounds cfg until since (r ∷ rs) s times =
      let next = (work cfg retention r (after_others r s)).1 in
      select-rounds cfg until r.now rs next times.4
      ∙ select-append (is_within retention until) next.history (all_added rs)
      ∙ ap (λ hs. hs ++ select_where (is_within retention until) (all_added rs))
          (select-work cfg until r (after_others r s) times.2)
      ∙ sym (select-append (is_within retention until) (s.history ++ r.added) (all_added rs))
      ∙ ap (select_where (is_within retention until))
          (append_assoc s.history r.added (all_added rs))

  -- Where the worker starts without a note of a cleanup, time goes on from round to round and no cleanup
  -- raises, the rounds leave no row of the history that was older than the retention and a day when the
  -- last of them began, and every row, of the start or written in between, that is within the retention
  -- at the end, in their order.
  pub history_retention :
      (cfg : WorkerConfig) (until since : ℕ) (r : Round) (rs : List Round) (s : WorkerState)
      → s.last_cleanup_at ≡ none
      → InTime until since (r ∷ rs)
      → all (λ x. not x.cleanup_raises) (r ∷ rs) ≡ true
      → let after = serve_rounds cfg retention (r ∷ rs) s in
        (all (is_within (retention + one_day) (last_now r.now rs)) after.history ≡ true)
        × (select_where (is_within retention until) after.history
            ≡ select_where (is_within retention until) (s.history ++ all_added (r ∷ rs)))
  unfolding serve_rounds
  history_retention cfg until since r rs s first times calm =
      let kept : Kept r.now r.now (work cfg retention r (after_others r s)).1 =
        cleaned-Kept cfg r (after_others r s) times.1 (ground arith) (rw first refl) in
      let (last, k) =
        rounds-Kept cfg until r.now r.now rs (work cfg retention r (after_others r s)).1 times.4
          (ground arith) kept in
      let past = k.past in
      let recent = k.recent in
      (
        all-impl (is_within retention last) (is_within (retention + one_day) (last_now r.now rs))
            (serve_rounds cfg retention (r ∷ rs) s).history (λ h e. ground arith) k.rows,
        select-rounds cfg until since (r ∷ rs) s times,
      )

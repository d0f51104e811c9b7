-- ===== src/Memory/Guard.antt =====
-- What holds at each turn of a batch of one user in apply_actions: the memories of the other users stay
-- as they were, and the identifiers distinct.
use globuy.Prelude.{
  ℕ, ◌≤◌, ◌≡◌, refl, sym, ap, ◌∙◌, true, false, not, some, List, [], ◌∷◌, ◌++◌, ◌==◌, any,
  find_first, count_if, select_where, update_where, delete_where, arith, Bool-cases, false_not_true,
  count_if-append, inl, inr, count_if-update, count_if-delete_le, any-false, ==-refl, ==_iff,
}
use globuy.Sessions.Schema.{Text}
use globuy.Memory.Entries.{MemoryEntry, has_id, is_owned, has_content}
use globuy.Memory.Actions.{UnitOfWork, flush, remaining, is_removed, has_conflict}

-- The rows of the other users.
abbrev pub others : ℕ → List MemoryEntry → List MemoryEntry
others u = select_where (λ x. not (x.user_id == u))

-- No row of another user has the identifier.
abbrev pub Ours : List MemoryEntry → ℕ → Type 0
Ours foreign m = any (has_id m) foreign ≡ false

abbrev pub Unique : List MemoryEntry → Type 0
Unique xs = (m : ℕ) → count_if (has_id m) xs ≤ 1

pub others-update :
    (u m : ℕ) (f : MemoryEntry → MemoryEntry) (xs : List MemoryEntry)
    → Ours (others u xs) m
    → ((x : MemoryEntry) → (f x).user_id ≡ x.user_id)
    → others u (update_where (has_id m) f xs) ≡ others u xs
others-update u m f [] h k = refl
others-update u m f (x ∷ xs) h k = ground (arith, k x, others-update u m f xs)

others-delete :
    (u : ℕ) (ms : List ℕ) (xs : List MemoryEntry)
    → ((m : ℕ) → any (λ n. n == m) ms ≡ true → Ours (others u xs) m)
    → others u (delete_where (is_removed ms) xs) ≡ others u xs
others-delete u ms [] h = refl
others-delete u ms (x ∷ xs) h =
    ground (arith, h x.memory_id, others-delete u ms xs (λ m k. ground (arith, h m k)))

pub others-append :
    (u : ℕ) (x : MemoryEntry) (xs : List MemoryEntry)
    → x.user_id ≡ u
    → others u (xs ++ x ∷ []) ≡ others u xs
others-append u x [] h = ground arith
others-append u x (y ∷ xs) h = ground (arith, others-append u x xs)

owned_counts :
    (u m : ℕ) (xs : List MemoryEntry) → any (is_owned u m) xs ≡ true → 1 ≤ count_if (has_id m) xs
owned_counts u m [] h = cc
owned_counts u m (x ∷ xs) h = ground (arith, owned_counts u m xs)

Ours-of_none : (u m : ℕ) (xs : List MemoryEntry) → count_if (has_id m) xs ≤ 0 → Ours (others u xs) m
Ours-of_none u m [] h = refl
Ours-of_none u m (x ∷ xs) h = ground (arith, Ours-of_none u m xs)

pub Ours-of_owned :
    (u m : ℕ) (xs : List MemoryEntry)
    → any (is_owned u m) xs ≡ true
    → count_if (has_id m) xs ≤ 1
    → Ours (others u xs) m
Ours-of_owned u m [] h k = cc
Ours-of_owned u m (x ∷ xs) h k =
    ground (arith, Ours-of_owned u m xs, owned_counts u m xs, Ours-of_none u m xs)

pub found_owned :
    (u : ℕ) (digest : Text) (xs : List MemoryEntry) (x : MemoryEntry)
    → find_first (has_content u digest) xs ≡ some x
    → any (is_owned u x.memory_id) xs ≡ true
found_owned u digest [] x e = cc
found_owned u digest (y ∷ xs) x e = ground (arith, found_owned u digest xs x, ==-refl x.memory_id)

-- A query for a user's text finds a memory of that user.
pub Ours-of_found :
    (u : ℕ) (digest : Text) (xs : List MemoryEntry) (x : MemoryEntry)
    → find_first (has_content u digest) xs ≡ some x
    → Unique xs
    → Ours (others u xs) x.memory_id
Ours-of_found u digest xs x e unique =
    Ours-of_owned u x.memory_id xs (found_owned u digest xs x e) (unique x.memory_id)

pub flush-some :
    (w w' : UnitOfWork)
    → flush w ≡ some w'
    → (w'.stored ≡ remaining w)
      × (w'.objects ≡ remaining w)
      × (w'.removed ≡ [])
      × (w'.outbox ≡ w.outbox)
      × (has_conflict (remaining w) ≡ false)
unfolding flush
flush-some w w' h = ground arith

-- What holds of a batch of `u` at each turn, where `foreign` are the other users' memories.
pub record Guarded (u : ℕ) (foreign stored objects : List MemoryEntry) (removed : List ℕ)
    : Type 0 where
  pub stored_kept : others u stored ≡ foreign
  pub objects_kept : others u objects ≡ foreign
  pub removed_ours : (m : ℕ) → any (λ n. n == m) removed ≡ true → Ours foreign m
  pub stored_unique : Unique stored
  pub objects_unique : Unique objects

abbrev pub GuardedUnit : ℕ → List MemoryEntry → UnitOfWork → Type 0
GuardedUnit u foreign w = Guarded u foreign w.stored w.objects w.removed

module _ {u : ℕ} {foreign : List MemoryEntry} (w : UnitOfWork) (g : GuardedUnit u foreign w) where
  pub change-Guarded :
      (m : ℕ) (f : MemoryEntry → MemoryEntry)
      → Ours foreign m
      → ((x : MemoryEntry) → (f x).user_id ≡ x.user_id)
      → ((x : MemoryEntry) → (f x).memory_id ≡ x.memory_id)
      → Guarded u foreign w.stored (update_where (has_id m) f w.objects) w.removed
  change-Guarded m f ours same_user same_id = record {
    stored_kept = g.stored_kept;
    objects_kept =
        others-update u m f w.objects (rw g.objects_kept ours) same_user ∙ g.objects_kept;
    removed_ours = g.removed_ours;
    stored_unique = g.stored_unique;
    objects_unique = λ n.
        rw (count_if-update (has_id n) (has_id m) f w.objects (λ x _. ap (λ k. k == n) (same_id x)))
          (g.objects_unique n);
  }

  pub remove-Guarded :
      (m : ℕ) → Ours foreign m → Guarded u foreign w.stored w.objects (m ∷ w.removed)
  remove-Guarded m ours = record {
    stored_kept = g.stored_kept;
    objects_kept = g.objects_kept;
    removed_ours = λ n k. ground (arith, g.removed_ours n);
    stored_unique = g.stored_unique;
    objects_unique = g.objects_unique;
  }

  remaining_kept : others u (remaining w) ≡ foreign
  remaining_kept =
      others-delete u w.removed w.objects (λ m k. rw g.objects_kept (g.removed_ours m k))
      ∙ g.objects_kept

  pub remaining-Unique : Unique (remaining w)
  remaining-Unique m =
      omega
        (arith, count_if-delete_le (has_id m) (is_removed w.removed) w.objects, g.objects_unique m)

  pub flush-Guarded : (w' : UnitOfWork) → flush w ≡ some w' → GuardedUnit u foreign w'
  flush-Guarded w' h =
      let (stored, objects, removed, _, _) = flush-some w w' h in
      record {
        stored_kept = rw stored remaining_kept;
        objects_kept = rw objects remaining_kept;
        removed_ours = λ m k. absurd (false_not_true (ap (any (λ n. n == m)) (sym removed) ∙ k));
        stored_unique = rw stored remaining-Unique;
        objects_unique = rw objects remaining-Unique;
      }

pub Unique-append :
    (x : MemoryEntry) (xs : List MemoryEntry)
    → Unique xs
    → any (has_id x.memory_id) xs ≡ false
    → Unique (xs ++ x ∷ [])
Unique-append x xs unique free m =
    let none_yet : count_if (has_id x.memory_id) xs ≡ 0 = any-false (has_id x.memory_id) xs free in
    rw (count_if-append (has_id m) xs (x ∷ [])) (elim (Bool-cases (x.memory_id == m)) [
      | inl here ↦ rw here (ground (arith, none_yet, (==_iff x.memory_id m).0))
      | inr other ↦ rw other (ground (arith, unique m))
    ])

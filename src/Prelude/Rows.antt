-- ===== src/Prelude/Rows.antt =====
-- Laws of the row operations.
use Prim.Native.Nat.{ℕ, ◌+◌, ◌≤◌}
use mathlib.Core.Path.{◌≡◌, refl}
use mathlib.Core.Logic.{◌⊎◌, inr}
use mathlib.Core.Bool.{Bool, true, false, ◌&&◌}
use mathlib.Core.List.{List, [], ◌∷◌, ◌++◌}
use mathlib.Core.Option.{none, some}
use native.Mathlib.Omega.{arith}
use globuy.Prelude.Tests.{if◌then◌else◌}
use globuy.Prelude.Lists.{find_first, count_if, any, update_where, delete_where}

module _ {ℓ} {A : Type ℓ} where
  pub find_first-none : (p : A → Bool) (xs : List A) → find_first p xs ≡ none → count_if p xs ≡ 0
  find_first-none p [] h = refl
  find_first-none p (x ∷ xs) h = ground (arith, find_first-none p xs)

  pub find_first-some :
      (p : A → Bool) (xs : List A) (a : A)
      → find_first p xs ≡ some a
      → (p a ≡ true) × (1 ≤ count_if p xs)
  find_first-some p [] a h = cc
  find_first-some p (x ∷ xs) a h = ground (arith, find_first-some p xs a)

  pub count_if-append :
      (p : A → Bool) (xs ys : List A) → count_if p (xs ++ ys) ≡ count_if p xs + count_if p ys
  count_if-append p [] ys = omega arith
  count_if-append p (x ∷ xs) ys = ground (arith, count_if-append p xs ys)

  pub any-false : (p : A → Bool) (xs : List A) → any p xs ≡ false → count_if p xs ≡ 0
  any-false p [] h = refl
  any-false p (x ∷ xs) h = ground (arith, any-false p xs)

  pub any-true : (p : A → Bool) (xs : List A) → any p xs ≡ true → 1 ≤ count_if p xs
  any-true p [] h = cc
  any-true p (x ∷ xs) h = ground (arith, any-true p xs)

  pub count_if-any_zero : (p : A → Bool) (xs : List A) → count_if p xs ≡ 0 → any p xs ≡ false
  count_if-any_zero p [] h = refl
  count_if-any_zero p (x ∷ xs) h = ground (arith, count_if-any_zero p xs)

  -- A test that holds less often counts fewer rows.
  pub count_if_mono :
      (p q : A → Bool) (xs : List A)
      → ((x : A) → p x ≡ true → q x ≡ true)
      → count_if p xs ≤ count_if q xs
  count_if_mono p q [] h = omega arith
  count_if_mono p q (x ∷ xs) h = ground (arith, h x, count_if_mono p q xs h)

  -- An update that makes no new row pass the test does not raise the count.
  pub count_if-update_le :
      (q p : A → Bool) (f : A → A) (xs : List A)
      → ((x : A) → p x ≡ true → q (f x) ≡ true → q x ≡ true)
      → count_if q (update_where p f xs) ≤ count_if q xs
  count_if-update_le q p f [] h = omega arith
  count_if-update_le q p f (x ∷ xs) h = ground (arith, h x, count_if-update_le q p f xs h)

  pub count_if-update :
      (q p : A → Bool) (f : A → A) (xs : List A)
      → ((x : A) → p x ≡ true → q (f x) ≡ q x)
      → count_if q (update_where p f xs) ≡ count_if q xs
  count_if-update q p f [] h = refl
  count_if-update q p f (x ∷ xs) h = ground (arith, h x, count_if-update q p f xs h)

  -- Where the update keeps every row that passes from passing, none is left.
  pub count_if-update_zero :
      (q p : A → Bool) (f : A → A) (xs : List A)
      → ((x : A) → q (if p x then f x else x) ≡ false)
      → count_if q (update_where p f xs) ≡ 0
  count_if-update_zero q p f [] h = refl
  count_if-update_zero q p f (x ∷ xs) h = ground (arith, h x, count_if-update_zero q p f xs h)

  pub count_if-delete_le :
      (q p : A → Bool) (xs : List A) → count_if q (delete_where p xs) ≤ count_if q xs
  count_if-delete_le q p [] = omega arith
  count_if-delete_le q p (x ∷ xs) = ground (arith, count_if-delete_le q p xs)

  pub count_if-delete :
      (q p : A → Bool) (xs : List A)
      → ((x : A) → p x ≡ true → q x ≡ false)
      → count_if q (delete_where p xs) ≡ count_if q xs
  count_if-delete q p [] h = refl
  count_if-delete q p (x ∷ xs) h = ground (arith, h x, count_if-delete q p xs h)

  pub update_where_none :
      (p : A → Bool) (f : A → A) (xs : List A) → count_if p xs ≡ 0 → update_where p f xs ≡ xs
  update_where_none p f [] h = refl
  update_where_none p f (x ∷ xs) h = ground (arith, update_where_none p f xs)

  pub delete_where_none : (p : A → Bool) (xs : List A) → count_if p xs ≡ 0 → delete_where p xs ≡ xs
  delete_where_none p [] h = refl
  delete_where_none p (x ∷ xs) h = ground (arith, delete_where_none p xs)

  -- An update keeps what passes from failing.
  pub count_if-update_ge :
      (q p : A → Bool) (f : A → A) (xs : List A)
      → ((x : A) → p x ≡ true → q x ≡ true → q (f x) ≡ true)
      → count_if q xs ≤ count_if q (update_where p f xs)
  count_if-update_ge q p f [] h = omega arith
  count_if-update_ge q p f (x ∷ xs) h = ground (arith, h x, count_if-update_ge q p f xs h)

  -- Every updated row passes.
  pub count_if-update_hits :
      (q p : A → Bool) (f : A → A) (xs : List A)
      → ((x : A) → p x ≡ true → q (f x) ≡ true)
      → count_if p xs ≤ count_if q (update_where p f xs)
  count_if-update_hits q p f [] h = omega arith
  count_if-update_hits q p f (x ∷ xs) h = ground (arith, h x, count_if-update_hits q p f xs h)

  -- Every row that passes is deleted.
  pub count_if-delete_all :
      (q p : A → Bool) (xs : List A)
      → ((x : A) → q x ≡ true → p x ≡ true)
      → count_if q (delete_where p xs) ≡ 0
  count_if-delete_all q p [] h = refl
  count_if-delete_all q p (x ∷ xs) h = ground (arith, h x, count_if-delete_all q p xs h)

  -- No row that passes is deleted.
  pub count_if-delete_none :
      (q r p : A → Bool) (xs : List A)
      → ((x : A) → q x ≡ true → r x ≡ true)
      → any (λ x. r x && p x) xs ≡ false
      → count_if q (delete_where p xs) ≡ count_if q xs
  count_if-delete_none q r p [] h k = refl
  count_if-delete_none q r p (x ∷ xs) h k = ground (arith, h x, count_if-delete_none q r p xs h)

  -- Where a row that passes is updated or deleted only if n is 0, either n is 0 or all stay.
  pub count_if-update_guarded :
      (n : ℕ) (q p : A → Bool) (f : A → A) (xs : List A)
      → ((x : A) → p x ≡ true → q x ≡ true → n ≡ 0)
      → (n ≡ 0) ⊎ (count_if q xs ≤ count_if q (update_where p f xs))
  count_if-update_guarded n q p f [] h = inr (omega arith)
  count_if-update_guarded n q p f (x ∷ xs) h =
      ground (arith, h x, count_if-update_guarded n q p f xs h)

  pub count_if-delete_guarded :
      (n : ℕ) (q p : A → Bool) (xs : List A)
      → ((x : A) → p x ≡ true → q x ≡ true → n ≡ 0)
      → (n ≡ 0) ⊎ (count_if q xs ≤ count_if q (delete_where p xs))
  count_if-delete_guarded n q p [] h = inr (omega arith)
  count_if-delete_guarded n q p (x ∷ xs) h = ground (arith, h x, count_if-delete_guarded n q p xs h)

  -- The same two bounds where no updated row is excluded by `e`.
  pub count_if-update_le_unless :
      (q p e : A → Bool) (f : A → A) (xs : List A)
      → any (λ x. p x && e x) xs ≡ false
      → ((x : A) → e x ≡ false → q (f x) ≡ true → q x ≡ true)
      → count_if q (update_where p f xs) ≤ count_if q xs
  count_if-update_le_unless q p e f [] k h = omega arith
  count_if-update_le_unless q p e f (x ∷ xs) k h =
      ground (arith, h x, count_if-update_le_unless q p e f xs)

  pub count_if-update_ge_unless :
      (q p e : A → Bool) (f : A → A) (xs : List A)
      → any (λ x. p x && e x) xs ≡ false
      → ((x : A) → e x ≡ false → q x ≡ true → q (f x) ≡ true)
      → count_if q xs ≤ count_if q (update_where p f xs)
  count_if-update_ge_unless q p e f [] k h = omega arith
  count_if-update_ge_unless q p e f (x ∷ xs) k h =
      ground (arith, h x, count_if-update_ge_unless q p e f xs)

  -- The row that a query returns is a row of the table.
  pub find_first_counts :
      (p q : A → Bool) (xs : List A) (a : A)
      → find_first p xs ≡ some a
      → q a ≡ true
      → 1 ≤ count_if q xs
  find_first_counts p q [] a h k = cc
  find_first_counts p q (x ∷ xs) a h k = ground (arith, find_first_counts p q xs a)

  pub any_of_count : (p : A → Bool) (xs : List A) → 1 ≤ count_if p xs → any p xs ≡ true
  any_of_count p [] h = absurd (omega arith)
  any_of_count p (x ∷ xs) h = ground (arith, any_of_count p xs)

  pub count_if-disjoint :
      (p q r : A → Bool) (xs : List A)
      → ((x : A) → q x ≡ true → (p x ≡ true) × (r x ≡ false))
      → ((x : A) → r x ≡ true → p x ≡ true)
      → count_if q xs + count_if r xs ≤ count_if p xs
  count_if-disjoint p q r [] h k = omega arith
  count_if-disjoint p q r (x ∷ xs) h k = ground (arith, h x, k x, count_if-disjoint p q r xs h k)

  -- The row that a query returns, after an update of the rows that it looks for.
  pub find_first-update :
      (p : A → Bool) (f : A → A) (xs : List A) (a : A)
      → ((x : A) → p x ≡ true → p (f x) ≡ true)
      → find_first p xs ≡ some a
      → find_first p (update_where p f xs) ≡ some (f a)
  find_first-update p f [] a h e = cc
  find_first-update p f (x ∷ xs) a h e = ground (arith, h x, find_first-update p f xs a h)

  pub any-update :
      (q p : A → Bool) (f : A → A) (xs : List A)
      → ((x : A) → q (f x) ≡ q x)
      → any q (update_where p f xs) ≡ any q xs
  any-update q p f [] h = refl
  any-update q p f (x ∷ xs) h = ground (arith, h x, any-update q p f xs h)

  pub find_first-any : (p : A → Bool) (xs : List A) → find_first p xs ≡ none → any p xs ≡ false
  find_first-any p [] h = refl
  find_first-any p (x ∷ xs) h = ground (arith, find_first-any p xs)

  pub any-find_first : (p : A → Bool) (xs : List A) → find_first p xs ≡ none → any p xs ≡ true → ⊥
  any-find_first p [] h k = cc
  any-find_first p (x ∷ xs) h k = ground (arith, any-find_first p xs)

  pub find_first-update_other :
      (p q : A → Bool) (f : A → A) (xs : List A)
      → ((x : A) → q x ≡ true → p (f x) ≡ false)
      → ((x : A) → q x ≡ true → p x ≡ false)
      → find_first p (update_where q f xs) ≡ find_first p xs
  find_first-update_other p q f [] h k = refl
  find_first-update_other p q f (x ∷ xs) h k =
      ground (arith, h x, k x, find_first-update_other p q f xs h k)

  pub find_first-delete :
      (p q : A → Bool) (xs : List A) (a : A)
      → q a ≡ false
      → find_first p xs ≡ some a
      → find_first p (delete_where q xs) ≡ some a
  find_first-delete p q [] a h e = cc
  find_first-delete p q (x ∷ xs) a h e = ground (arith, find_first-delete p q xs a h)

  -- What is not there is not there after a deletion.
  pub find_first-delete_none :
      (p q : A → Bool) (xs : List A)
      → find_first p xs ≡ none
      → find_first p (delete_where q xs) ≡ none
  find_first-delete_none p q [] e = refl
  find_first-delete_none p q (x ∷ xs) e = ground (arith, find_first-delete_none p q xs)

  -- The row that a query returns, after an update of some of the rows that it looks for.
  pub find_first-update_some :
      (p q : A → Bool) (f : A → A) (xs : List A) (a : A)
      → ((x : A) → p (f x) ≡ p x)
      → find_first p xs ≡ some a
      → q a ≡ true
      → find_first p (update_where q f xs) ≡ some (f a)
  find_first-update_some p q f [] a h e k = cc
  find_first-update_some p q f (x ∷ xs) a h e k =
      ground (arith, h x, find_first-update_some p q f xs a h)

  -- A row that one query returns is the one that a query for a key of its own returns.
  pub find_first_unique :
      (p q : A → Bool) (xs : List A) (a : A)
      → find_first p xs ≡ some a
      → q a ≡ true
      → count_if q xs ≤ 1
      → find_first q xs ≡ some a
  find_first_unique p q [] a e h k = cc
  find_first_unique p q (x ∷ xs) a e h k =
      ground (arith, find_first_unique p q xs a, find_first_counts p q xs a)

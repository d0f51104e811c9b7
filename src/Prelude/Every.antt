-- ===== src/Prelude/Every.antt =====
-- Tests that hold of every row, and of some row of two lists.
use Prim.Native.Nat.{ℕ, ◌≤◌}
use mathlib.Core.Path.{◌≡◌, refl}
use mathlib.Core.Logic.{inl, inr}
use mathlib.Core.Bool.{Bool, true, ◌&&◌}
use mathlib.Core.List.{List, [], ◌∷◌, ◌++◌}
use mathlib.Core.Option.{some}
use native.Mathlib.Omega.{arith}
use globuy.Prelude.Tests.{Bool-cases, ==-refl}
use globuy.Prelude.Lists.{find_first, count_if, any, all, update_where, same_text}
use globuy.Prelude.Rows.{update_where_none}

pub same_text_refl : (t : List ℕ) → same_text t t ≡ true
same_text_refl [] = refl
same_text_refl (c ∷ t) = ground (arith, same_text_refl t, ==-refl c)

pub same_text-eq : (a b : List ℕ) → same_text a b ≡ true → a ≡ b
same_text-eq [] [] h = refl
same_text-eq [] (d ∷ ds) h = cc
same_text-eq (c ∷ cs) [] h = cc
same_text-eq (c ∷ cs) (d ∷ ds) h =
    let e : c ≡ d = ground arith in let rest : cs ≡ ds = same_text-eq cs ds (ground arith) in cc

pub same_text_sym : (a b : List ℕ) → same_text a b ≡ same_text b a
same_text_sym [] [] = refl
same_text_sym [] (d ∷ b) = refl
same_text_sym (c ∷ a) [] = refl
same_text_sym (c ∷ a) (d ∷ b) = ground (arith, same_text_sym a b)

module _ {ℓ} {A : Type ℓ} where
  pub all-impl :
      (p q : A → Bool) (xs : List A)
      → ((x : A) → p x ≡ true → q x ≡ true)
      → all p xs ≡ true
      → all q xs ≡ true
  all-impl p q [] h k = refl
  all-impl p q (x ∷ xs) h k = ground (arith, h x, all-impl p q xs h)

  pub all-and :
      (p q : A → Bool) (xs : List A)
      → all p xs ≡ true
      → all q xs ≡ true
      → all (λ x. p x && q x) xs ≡ true
  all-and p q [] h k = refl
  all-and p q (x ∷ xs) h k = ground (arith, all-and p q xs)

  pub all-update :
      (p q r : A → Bool) (f : A → A) (xs : List A)
      → ((x : A) → p x ≡ true → q x ≡ true)
      → ((x : A) → r x ≡ true → p x ≡ true → q (f x) ≡ true)
      → all p xs ≡ true
      → all q (update_where r f xs) ≡ true
  all-update p q r f [] h k a = refl
  all-update p q r f (x ∷ xs) h k a = ground (arith, h x, k x, all-update p q r f xs h k)

  -- The update of the one row that a query returns.
  pub all-update_found :
      (p q r : A → Bool) (f : A → A) (xs : List A) (a : A)
      → ((x : A) → p x ≡ true → q x ≡ true)
      → find_first r xs ≡ some a
      → count_if r xs ≤ 1
      → q (f a) ≡ true
      → all p xs ≡ true
      → all q (update_where r f xs) ≡ true
  all-update_found p q r f [] a h e one k b = refl
  all-update_found p q r f (x ∷ xs) a h e one k b = elim (Bool-cases (r x)) [
    | inl here ↦ ground (arith, h x, update_where_none r f xs, all-impl p q xs h)
    | inr there ↦ ground (arith, h x, all-update_found p q r f xs a h)
  ]

  pub all-append :
      (p : A → Bool) (xs ys : List A) → all p xs ≡ true → all p ys ≡ true → all p (xs ++ ys) ≡ true
  all-append p [] ys h k = k
  all-append p (x ∷ xs) ys h k = ground (arith, all-append p xs ys)

  pub any-append_left : (p : A → Bool) (xs ys : List A) → any p xs ≡ true → any p (xs ++ ys) ≡ true
  any-append_left p [] ys h = cc
  any-append_left p (x ∷ xs) ys h = ground (arith, any-append_left p xs ys)

  pub any-append_last :
      (p : A → Bool) (xs : List A) (y : A) → p y ≡ true → any p (xs ++ y ∷ []) ≡ true
  any-append_last p [] y h = ground arith
  any-append_last p (x ∷ xs) y h = ground (arith, any-append_last p xs y)

-- ===== src/Sessions/Title.antt =====
-- `_title` of app/database/session_store.py. `is_space` stands for Python's whitespace test, by
-- which `str.split()` separates words.
use globuy.Prelude.{
  ℕ, ◌≤◌, Bool, List, [], ◌∷◌, ◌++◌, take, length, if◌then◌else◌, arith, length-take,
}
use globuy.Sessions.Schema.{Text}

-- "新对话"
abbrev pub new_conversation : Text
new_conversation = 26032 ∷ 23545 ∷ 35805 ∷ []

abbrev flush : Text → List Text → List Text
flush [] rest = rest
flush (c ∷ cs) rest = (c ∷ cs) ∷ rest

-- The words behind the part `word` of the one that is being read.
unfoldable pub split_from : (ℕ → Bool) → Text → Text → List Text
split_from is_space word [] = flush word []
split_from is_space word (c ∷ cs) =
    let rest = split_from is_space (if is_space c then [] else word ++ c ∷ []) cs in
    if is_space c then flush word rest else rest

unfoldable pub join : List Text → Text
join [] = []
join (w ∷ []) = w
join (w ∷ (v ∷ ws)) = w ++ b' ' ∷ join (v ∷ ws)

abbrev or_default : Text → Text
or_default [] = new_conversation
or_default (c ∷ cs) = c ∷ cs

unfoldable pub title : (ℕ → Bool) → Text → Text
unfolding split_from join
title is_space query = or_default (take 32 (join (split_from is_space [] query)))

or_default_bounds :
    (t : Text) → length t ≤ 32 → (1 ≤ length (or_default t)) × (length (or_default t) ≤ 32)
or_default_bounds [] h = omega arith
or_default_bounds (c ∷ cs) h = omega arith

-- Every query gives a title of 1 to 32 code points.
title_bounds :
    (is_space : ℕ → Bool) (query : Text)
    → (1 ≤ length (title is_space query)) × (length (title is_space query) ≤ 32)
unfolding title
title_bounds is_space query =
    let line = join (split_from is_space [] query) in
    or_default_bounds (take 32 line) (omega (arith, length-take 32 line))

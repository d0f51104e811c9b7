-- ===== src/Registry/Deltas.antt =====
-- The chunks that a client is sent make the text that is stored.
use globuy.Prelude.{
  same_text-eq, same_text, ◌≡◌, refl, ap, sym, true, [], ◌∷◌, ◌++◌, length, drop, if◌then◌else◌,
  arith, Bool-cases, inl, inr,
}
use globuy.Sessions.Schema.{Text}
use globuy.Registry.Agent.{is_nonempty}
use globuy.Registry.Final.{missing_text, starts_with}

starts_with-drop : (p t : Text) → starts_with p t ≡ true → p ++ drop (length p) t ≡ t
starts_with-drop [] t h = refl
starts_with-drop (c ∷ cs) [] h = cc
starts_with-drop (c ∷ cs) (d ∷ ds) h =
    let e : c ≡ d = ground arith in
    let rest : cs ++ drop (length cs) ds ≡ ds = starts_with-drop cs ds (ground arith) in cc

append_nil : (t : Text) → t ++ [] ≡ t
append_nil [] = refl
append_nil (c ∷ cs) = ap (λ t. c ∷ t) (append_nil cs)

-- The texts that the user has been sent once the run succeeds.
abbrev pub said : Text → Text → Text
said final joined =
    if is_nonempty final
    then if starts_with joined final then final else joined ++ final
    else joined

starts_with_self : (a : Text) → starts_with a a ≡ true
starts_with_self [] = refl
starts_with_self (c ∷ cs) = ground (arith, starts_with_self cs)

-- What was streamed and the missing text behind it are together the final text, if what was
-- streamed begins it; otherwise the final text follows what was streamed whole, and an empty final
-- text adds nothing.
missing_text_completes :
    (final joined : Text) → joined ++ missing_text final joined ≡ said final joined
unfolding missing_text
missing_text_completes final joined = elim (Bool-cases (is_nonempty final)) [
  | inl full ↦ elim (Bool-cases (same_text final joined)) [
    | inl same ↦
        let e : final ≡ joined = same_text-eq final joined same in
        rw (full, same, sym e, starts_with_self final) (append_nil final)
    | inr differ ↦ elim (Bool-cases (starts_with joined final)) [
      | inl begins ↦ rw (full, differ, begins) (starts_with-drop joined final begins)
      | inr not_begins ↦ rw (full, differ, not_begins) refl
    ]
  ]
  | inr empty ↦ rw empty (append_nil joined)
]

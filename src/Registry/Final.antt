-- ===== src/Registry/Final.antt =====
-- RunRegistry._final_result of app/api/run_registry.py, with app/presentation.py. The regular
-- expression of hidden lines, `splitlines` and `strip` are the library's, and arguments; so is what
-- app/search/catalog_images.py makes of the picks. The ranking's labels are passed on unread, and
-- left out.
use globuy.Prelude.{
  same_text, ℕ, suc, Bool, true, false, ◌&&◌, not, Option, none, some, List, [], ◌∷◌, ◌++◌, ◌==◌,
  length, drop, ltb, select_where, if◌then◌else◌,
}
use globuy.Sessions.Schema.{Text}
use globuy.Registry.Agent.{
  AgentState, Terminal, TerminalStatus, complete, StateMessage, messages_of, is_nonempty,
  product_search_summary, dictionaries,
}

abbrev pub newline : ℕ
newline = 10

-- `"\n".join(lines)`
abbrev pub join_lines : List Text → Text
join_lines [] = []
join_lines (l ∷ []) = l
join_lines (l ∷ m ∷ ms) = l ++ newline ∷ join_lines (m ∷ ms)

-- `re.sub(r"\n{3,}", "\n\n", value)`, behind `seen` line breaks.
unfoldable pub collapse : ℕ → Text → Text
collapse seen [] = []
collapse seen (c ∷ cs) = elim (c == newline) [
  | true ↦ elim (ltb seen 2) [ true ↦ c ∷ collapse (suc seen) cs | false ↦ collapse (suc seen) cs ]
  | false ↦ c ∷ collapse 0 cs
]

abbrev pub first_text : Text → Text → Text
first_text [] t = t
first_text (c ∷ cs) t = c ∷ cs

abbrev pub text_or_empty : Option Text → Text
text_or_empty none = []
text_or_empty (some t) = t

abbrev pub last_content : Text → List StateMessage → Text
last_content t [] = t
last_content t (m ∷ ms) = last_content (text_or_empty m.content) ms

abbrev pub empty_terminal : Terminal
empty_terminal = record {
  final_text = [];
  message = [];
  status = none;
  picks = [];
  unresolved = [];
}

abbrev pub terminal_or_empty : Option Terminal → Terminal
terminal_or_empty none = empty_terminal
terminal_or_empty (some t) = t

abbrev pub terminal_of : Option AgentState → Terminal
terminal_of none = empty_terminal
terminal_of (some s) = terminal_or_empty s.terminal_result

-- The terminal result's own text or message, else what was streamed, else the last message.
unfoldable pub chosen_text : Option AgentState → Text → Text
chosen_text state streamed =
    let t = terminal_of state in
    first_text (first_text (first_text t.final_text t.message) streamed)
      (last_content [] (messages_of state))

abbrev pub status_or_complete : Option TerminalStatus → TerminalStatus
status_or_complete none = complete
status_or_complete (some s) = s

pub record TaskResult : Type 0 where
  pub status : TerminalStatus
  pub final_text : Text
  pub picks : List Text
  pub unresolved : List (Option Text)
  pub search_attempted : Bool
  pub search_candidate_count : ℕ

abbrev pub somes {ℓ} : {A : Type ℓ} → List A → List (Option A)
somes [] = []
somes (x ∷ xs) = some x ∷ somes xs

module _ (is_hidden : Text → Bool) (splitlines : Text → List Text) (strip : Text → Text)
    (enrich : List Text → List Text) where
  unfoldable pub visible_unresolved : List (Option Text) → List Text
  visible_unresolved values =
      select_where (λ t. is_nonempty t && not (is_hidden t)) (dictionaries values)

  unfoldable pub sanitize_shopping_markdown : Text → Text
  unfolding collapse
  sanitize_shopping_markdown value =
      strip (collapse 0 (join_lines (select_where (λ l. not (is_hidden l)) (splitlines value))))

  unfoldable pub final_result : Option AgentState → Text → Text × TaskResult
  unfolding visible_unresolved sanitize_shopping_markdown chosen_text product_search_summary
  final_result state streamed =
      let t = terminal_of state in
      let text =
        if is_nonempty t.picks
        then sanitize_shopping_markdown (chosen_text state streamed)
        else chosen_text state streamed in
      let (attempted, count) = product_search_summary state in
      (
        text,
        record {
          status = status_or_complete t.status;
          final_text = text;
          picks = enrich t.picks;
          unresolved =
              (if is_nonempty t.picks
                then somes (visible_unresolved t.unresolved)
                else t.unresolved);
          search_attempted = attempted;
          search_candidate_count = count;
        },
      )

-- What is streamed behind the chunks once the final text is known.
abbrev pub starts_with : Text → Text → Bool
starts_with [] t = true
starts_with (c ∷ cs) [] = false
starts_with (c ∷ cs) (d ∷ ds) = c == d && starts_with cs ds

unfoldable pub missing_text : Text → Text → Text
missing_text final joined =
    if is_nonempty final && not (same_text final joined)
    then if starts_with joined final then drop (length joined) final else final
    else []

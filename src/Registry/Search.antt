-- ===== src/Registry/Search.antt =====
-- The final state that the registry keeps of an agent's run, against an independent description.
use globuy.Prelude.{
  ◌≡◌, ◌∙◌, Bool, true, false, ◌&&◌, not, Option, none, some, List, [], ◌∷◌, if◌then◌else◌, arith,
}
use globuy.Registry.Agent.{
  AgentState, GraphEvent, GraphEventKind, globuy_final_state, on_chain_end, accumulate_final_state,
  final_state_of,
}

abbrev pub or_else {ℓ} : {A : Type ℓ} → Option A → Option A → Option A
or_else none o = o
or_else (some a) o = some a

abbrev pub is_final : GraphEventKind → Bool
is_final globuy_final_state = true
is_final _ = false

abbrev pub is_end : GraphEventKind → Bool
is_end on_chain_end = true
is_end _ = false

-- The output of the last event that passes a test and has one.
abbrev pub last_output : (GraphEvent → Bool) → List GraphEvent → Option AgentState
last_output p [] = none
last_output p (e ∷ es) = or_else (last_output p es) (if p e then e.output else none)

abbrev pub is_authority : GraphEvent → Bool
is_authority e = is_final e.kind

abbrev pub is_root_end : GraphEvent → Bool
is_root_end e = is_end e.kind && not e.has_parents

-- The state after more events, of what is known before them.
abbrev reference : Option AgentState × Bool → List GraphEvent → Option AgentState
reference (current, authoritative) es =
    or_else (last_output is_authority es)
      (if authoritative then current else or_else (last_output is_root_end es) current)

accumulate-reference :
    (known : Option AgentState × Bool) (e : GraphEvent) (es : List GraphEvent)
    → reference (accumulate_final_state known e) es ≡ reference known (e ∷ es)
unfolding accumulate_final_state
accumulate-reference (current, authoritative) e es = ground arith

final_state_of-reference :
    (known : Option AgentState × Bool) (es : List GraphEvent)
    → (final_state_of known es).0 ≡ reference known es
unfolding final_state_of
final_state_of-reference (current, authoritative) [] = ground arith
final_state_of-reference known (e ∷ es) =
    final_state_of-reference (accumulate_final_state known e) es ∙ accumulate-reference known e es

-- The state that is kept is the output of the last event that carries the graph's final state, or,
-- if there is none, of the last end of a chain without parents.
pub final_state-last_output :
    (es : List GraphEvent)
    → (final_state_of (none, false) es).0
      ≡ or_else (last_output is_authority es) (last_output is_root_end es)
final_state-last_output es = final_state_of-reference (none, false) es ∙ ground arith

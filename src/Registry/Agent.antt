-- ===== src/Registry/Agent.antt =====
-- What the agent's graph hands to the run registry: its events, and its final state. JSON values
-- are read as far as the registry reads them; `json.loads` is applied already.
use globuy.Prelude.{
  ℕ, ◌+◌, Bool, true, false, ◌&&◌, not, Option, none, some, List, [], ◌∷◌, ◌++◌, select_where,
  if◌then◌else◌,
}
use globuy.Sessions.Schema.{Text}

-- The output of one product search.
pub data SearchStatus : Type 0 where
  search_ok search_partial search_other : SearchStatus

-- `candidates` is the length of the list, if it is one.
pub record SearchOutput : Type 0 where
  pub status : SearchStatus
  pub blocked : Bool
  pub candidates : Option ℕ

-- An entry of `tool_results`: of the tool item_search or another, with its result if that is a
-- dictionary.
pub record ToolResult : Type 0 where
  pub is_item_search : Bool
  pub result : Option SearchOutput

-- Entries that are no dictionaries are none.
pub record ToolPayload : Type 0 where
  pub output : SearchOutput
  pub search_results : Option (List (Option SearchOutput))
  pub tool_results : Option (List (Option ToolResult))

pub data ToolName : Type 0 where
  item_search dispatch_tool other_tool : ToolName

-- A message of the state: its tool, the dictionary that its content is or that its text parses to,
-- and its content if that is a text.
pub record StateMessage : Type 0 where
  pub name : ToolName
  pub payload : Option ToolPayload
  pub content : Option Text

pub data TerminalStatus : Type 0 where
  complete incomplete not_configured error : TerminalStatus

-- `terminal_result`: texts that are missing or empty are []; a status outside the four is none.
pub record Terminal : Type 0 where
  pub final_text : Text
  pub message : Text
  pub status : Option TerminalStatus
  pub picks : List Text
  pub unresolved : List (Option Text)

pub record AgentState : Type 0 where
  pub messages : List StateMessage
  pub terminal_result : Option Terminal

pub data GraphEventKind : Type 0 where
  globuy_final_state on_chain_end on_chat_model_stream other_event : GraphEventKind

-- `output` is the output if it is a dictionary, `delta` the chunk's content if it is a text.
pub record GraphEvent : Type 0 where
  pub kind : GraphEventKind
  pub has_parents : Bool
  pub output : Option AgentState
  pub is_summary : Bool
  pub delta : Text

-- `_accumulate_final_state`
abbrev pub accumulate_output :
    GraphEventKind → Bool → AgentState → Option AgentState × Bool → Option AgentState × Bool
accumulate_output globuy_final_state has_parents output (current, authoritative) =
    (some output, true)
accumulate_output on_chain_end has_parents output (current, authoritative) =
    if not authoritative && not has_parents then (some output, false) else (current, authoritative)
accumulate_output _ has_parents output (current, authoritative) = (current, authoritative)

abbrev pub accumulate_some :
    GraphEvent → Option AgentState → Option AgentState × Bool → Option AgentState × Bool
accumulate_some e none known = known
accumulate_some e (some output) known = accumulate_output e.kind e.has_parents output known

unfoldable pub accumulate_final_state :
    Option AgentState × Bool → GraphEvent → Option AgentState × Bool
accumulate_final_state known e = accumulate_some e e.output known

-- The loop over the events, as far as it keeps the final state.
unfoldable pub final_state_of :
    Option AgentState × Bool → List GraphEvent → Option AgentState × Bool
unfolding accumulate_final_state
final_state_of known [] = known
final_state_of known (e ∷ es) = final_state_of (accumulate_final_state known e) es

-- The text that an event streams to the user.
abbrev pub is_stream : GraphEventKind → Bool
is_stream on_chat_model_stream = true
is_stream _ = false

abbrev pub streamed_delta : GraphEvent → Text
streamed_delta e = if is_stream e.kind && e.is_summary then e.delta else []

-- The chunks that the loop appends to `deltas`.
abbrev pub keep_chunk : Text → List Text → List Text
keep_chunk [] ds = ds
keep_chunk (c ∷ cs) ds = (c ∷ cs) ∷ ds

unfoldable pub deltas_of : List GraphEvent → List Text
deltas_of [] = []
deltas_of (e ∷ es) = keep_chunk (streamed_delta e) (deltas_of es)

-- `_product_search_summary`: the searches of a message.
abbrev pub dictionaries {ℓ} : {A : Type ℓ} → List (Option A) → List A
dictionaries [] = []
dictionaries (none ∷ xs) = dictionaries xs
dictionaries (some x ∷ xs) = x ∷ dictionaries xs

abbrev pub item_searches : List ToolResult → List (Option SearchOutput)
item_searches [] = []
item_searches (x ∷ xs) = (if x.is_item_search then x.result else none) ∷ item_searches xs

abbrev pub dispatched :
    Option (List (Option SearchOutput)) → Option (List (Option ToolResult)) → List SearchOutput
dispatched (some results) tools = dictionaries results
dispatched none (some tools) = dictionaries (item_searches (dictionaries tools))
dispatched none none = []

abbrev pub searches_of : ToolName → Option ToolPayload → List SearchOutput
searches_of name none = []
searches_of item_search (some p) = p.output ∷ []
searches_of dispatch_tool (some p) = dispatched p.search_results p.tool_results
searches_of other_tool (some p) = []

abbrev pub all_searches : List StateMessage → List SearchOutput
all_searches [] = []
all_searches (m ∷ ms) = searches_of m.name m.payload ++ all_searches ms

abbrev pub is_completed_status : SearchStatus → Bool
is_completed_status search_ok = true
is_completed_status search_partial = true
is_completed_status search_other = false

abbrev pub is_completed : SearchOutput → Bool
is_completed o = is_completed_status o.status && not o.blocked

abbrev pub candidate_total : List SearchOutput → ℕ
candidate_total [] = 0
candidate_total (o ∷ os) = elim o.candidates [
  | none ↦ candidate_total os
  | some n ↦ n + candidate_total os
]

abbrev pub messages_of : Option AgentState → List StateMessage
messages_of none = []
messages_of (some s) = s.messages

abbrev pub is_nonempty {ℓ} : {A : Type ℓ} → List A → Bool
is_nonempty [] = false
is_nonempty (x ∷ xs) = true

unfoldable pub product_search_summary : Option AgentState → Bool × ℕ
product_search_summary state =
    let completed = select_where is_completed (all_searches (messages_of state)) in
    (is_nonempty completed, candidate_total completed)

-- ===== src/Broker/Envelope.antt =====
-- What an agent's report brings to the stream of its root's thread.
use globuy.Prelude.{
  ℕ, ◌≡◌, refl, sym, ap, ◌∙◌, true, false, ◌&&◌, not, Option, none, some, List, [], ◌∷◌, ◌++◌, ◌==◌,
  any, delete_where, same_text, if◌then◌else◌, arith, inl, inr, Bool-cases, same_text-eq, ==_iff,
}
use globuy.Broker.Stream.{EventType, Payload, RunEventStream, given, publish}
use globuy.Broker.Order.{stream_step}
use globuy.Broker.Table.{EventBroker, find_stream, prune, publish_to}
use globuy.Broker.Isolation.{to_publish, perform_on, perform_same}
use globuy.Broker.Keys.{put_other, key-publish, find_stream-key, ensure_found}
use globuy.Broker.Monitor.{
  Key, DataValue, text, EventData, AgentEvent, Scope, has_name, get_value, default_value,
  message_key, source_key, text_only, internal_data, internal_message, publish_internal, emit,
}

abbrev pub or_else : Option DataValue → Option DataValue → Option DataValue
or_else none o = o
or_else (some v) o = some v

or_else-none : (o : Option DataValue) → or_else o none ≡ o
or_else-none none = refl
or_else-none (some v) = refl

deleted_name :
    (m k : Key) (d : EventData)
    → same_text m k ≡ true
    → get_value k (delete_where (has_name m) d) ≡ none
unfolding get_value
deleted_name m k [] h = refl
deleted_name m k ((j, v) ∷ d) h =
    let same : m ≡ k = same_text-eq m k h in
    elim (Bool-cases (same_text j m)) [
      | inl here ↦ rw here (deleted_name m k d h)
      | inr there ↦
          let other : same_text j k ≡ false = ap (same_text j) (sym same) ∙ there in
          rw (there, other) (deleted_name m k d h)
    ]

other_name :
    (m k : Key) (d : EventData)
    → same_text m k ≡ false
    → get_value k (delete_where (has_name m) d) ≡ get_value k d
unfolding get_value
other_name m k [] h = refl
other_name m k ((j, v) ∷ d) h = elim (Bool-cases (same_text j m)) [
  | inl here ↦
      let same : j ≡ m = same_text-eq j m here in
      let other : same_text j k ≡ false = ap (λ z. same_text z k) same ∙ h in
      rw (here, other) (other_name m k d h)
  | inr there ↦ rw there (ground (arith, other_name m k d h))
]

get_value-append :
    (k s : Key) (v : DataValue) (d : EventData)
    → get_value k (d ++ (s, v) ∷ [])
      ≡ or_else (get_value k d) (if same_text s k then some v else none)
unfolding get_value
get_value-append k s v [] = ground arith
get_value-append k s v ((j, w) ∷ d) = ground (arith, get_value-append k s v d)

get_value-present :
    (s : Key) (o : Option DataValue) (d : EventData)
    → any (has_name s) d ≡ true
    → or_else (get_value s d) o ≡ get_value s d
unfolding get_value
get_value-present s o [] h = cc
get_value-present s o ((j, w) ∷ d) h = ground (arith, get_value-present s o d)

get_value-set_default :
    (k s : Key) (v : DataValue) (d : EventData)
    → get_value k (default_value s v d)
      ≡ or_else (get_value k d) (if same_text s k then some v else none)
unfolding default_value
get_value-set_default k s v d = elim (Bool-cases (any (has_name s) d)) [
  | inr missing ↦ rw missing (get_value-append k s v d)
  | inl there ↦ rw there (elim (Bool-cases (same_text s k)) [
    | inr other ↦ rw other (sym (or_else-none (get_value k d)))
    | inl named ↦
        let same : s ≡ k = same_text-eq s k named in
        rw named
          (sym (get_value-present k (some v) d (ap (λ z. any (has_name z) d) (sym same) ∙ there)))
  ])
]

-- The field of an envelope: all but the message, and the source where it is another thread and none is given.
abbrev pub envelope_field : (ℕ → List ℕ) → ℕ → ℕ → EventData → Key → Option DataValue
envelope_field show channel t body k =
    if same_text message_key k
    then none
    else or_else (get_value k body)
        (if same_text source_key k && not (t == channel) then some (text (show t)) else none)

-- The table behind a publication on an open stream, under each key.
publish_at :
    (t r t' r' : ℕ) (kind : EventType) (body : Payload) (now : ℕ) (b : EventBroker)
    (s : RunEventStream)
    → find_stream t r b ≡ some s
    → s.terminal_at ≡ none
    → find_stream t' r' (perform_on t r (to_publish kind body now) b) ≡ (
        if t == t' && r == r'
        then some (publish kind body now s).1
        else find_stream t' r' (prune now b))
unfolding publish_to stream_step
publish_at t r t' r' kind body now b s found alive = elim (Bool-cases (t == t' && r == r')) [
  | inl same ↦
      let e : t ≡ t' = (==_iff t t').0 (ground arith) in
      let e' : r ≡ r' = (==_iff r r').0 (ground arith) in
      rw (same, sym e, sym e') (perform_same t r (to_publish kind body now) b s found alive)
  | inr other ↦
      rw (other, ensure_found t r now b s found alive)
        (put_other t' r' t r _ (prune now b) other
          (key-publish t r kind body now s (find_stream-key t r b s found)))
]

module _ (show : ℕ → List ℕ) (pack : Option (List ℕ) → EventData → List ℕ) where
  get_value-rest :
      (k : Key) (body : EventData)
      → get_value k (delete_where (has_name message_key) body)
        ≡ (if same_text message_key k then none else get_value k body)
  get_value-rest k body = elim (Bool-cases (same_text message_key k)) [
    | inl named ↦ rw named (deleted_name message_key k body named)
    | inr other ↦ rw other (other_name message_key k body other)
  ]

  get_value-internal_data :
      (channel : ℕ) (x : AgentEvent) (k : Key)
      → get_value k (internal_data show pack channel x)
        ≡ envelope_field show channel x.thread_id x.body k
  unfolding internal_data
  get_value-internal_data channel x k = elim (Bool-cases (x.thread_id == channel)) [
    | inl own ↦ rw own (
        get_value-rest k x.body ∙ elim (Bool-cases (same_text message_key k)) [
          | inl named ↦ rw named refl
          | inr other ↦ rw other (elim (Bool-cases (same_text source_key k)) [
            | inl source ↦ rw source (sym (or_else-none (get_value k x.body)))
            | inr plain ↦ rw plain (sym (or_else-none (get_value k x.body)))
          ])
        ])
    | inr nested ↦ rw nested (
        get_value-set_default k source_key (text (show x.thread_id))
          (delete_where (has_name message_key) x.body)
        ∙ elim (Bool-cases (same_text message_key k)) [
          | inl named ↦
              let same : message_key ≡ k = same_text-eq message_key k named in
              let unlike : same_text source_key k ≡ false = ap (same_text source_key) (sym same) in
              rw (named, deleted_name message_key k x.body named, unlike) refl
          | inr other ↦ rw (other, other_name message_key k x.body other) (ground arith)
        ])
  ]

  -- A report in the scope of a thread and a run, whose monitor names the root's thread, where the stream of
  -- the root's thread and the run is open: that stream publishes one event of the same kind, with the text
  -- under "message" as its message and all other data, to which the reporting thread is added as the source
  -- where it is not the root and the data name none. Under any other key the table has what the pruning of
  -- the expired streams leaves it.
  pub report_reaches_root :
      (scope : Scope) (kind : EventType) (t r root now : ℕ) (body : EventData) (b : EventBroker)
      (s : RunEventStream) (k : Key) (t' r' : ℕ)
      → scope.thread_id ≡ some t
      → scope.run_id ≡ some r
      → scope.publish_thread_id ≡ some root
      → find_stream root r b ≡ some s
      → s.terminal_at ≡ none
      → let x : AgentEvent = record {
        kind = kind;
        thread_id = t;
        run_id = r;
        timestamp = now;
        body = body;
      } in
        let sent = internal_data show pack root x in
        (after : EventBroker) × (emit show pack scope kind body now b ≡ some (x, after))
        × (get_value k sent ≡ envelope_field show root t body k)
        × (find_stream t' r' after ≡ (
            if root == t' && r == r'
            then some
                (publish kind (given (pack (text_only (get_value message_key body)) sent)) now s).1
            else find_stream t' r' (prune now b)))
  unfolding emit publish_internal internal_message stream_step
  report_reaches_root scope kind t r root now body b s k t' r' in_thread in_run of_root found
        alive =
      let x : AgentEvent = record {
        kind = kind;
        thread_id = t;
        run_id = r;
        timestamp = now;
        body = body;
      } in
      let sent = internal_data show pack root x in
      let q = to_publish kind (given (pack (text_only (get_value message_key body)) sent)) now in
      (
        perform_on root r q b,
        rw (in_thread, in_run, of_root) refl,
        get_value-internal_data root x k,
        publish_at root r t' r' kind (given (pack (text_only (get_value message_key body)) sent))
            now b s found alive,
      )

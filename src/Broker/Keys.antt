-- ===== src/Broker/Keys.antt =====
-- The streams of the table by their keys: what pruning, opening and a change leave of them.
use globuy.Prelude.{
  ℕ, ◌≡◌, refl, ◌∙◌, true, false, ◌&&◌, Option, none, some, ◌==◌, arith, find_first-update,
  find_first-update_other, find_first-delete, find_first-some,
}
use globuy.Broker.Stream.{
  EventType, Payload, RunEventStream, fresh_stream, publish, subscribe, unsubscribe, append_event,
}
use globuy.Broker.Table.{
  EventBroker, has_key, find_stream, is_expired, prune, or_open, ensure_stream, put_stream,
}

-- A stream whose run has not ended survives every pruning.
pub prune-find :
    (t r now : ℕ) (b : EventBroker) (s : RunEventStream)
    → find_stream t r b ≡ some s
    → s.terminal_at ≡ none
    → find_stream t r (prune now b) ≡ some s
unfolding find_stream prune
prune-find t r now b s found alive =
    find_first-delete (has_key t r) (is_expired b.retention now) b.streams s (rw alive refl) found

other_key :
    (t r t' r' : ℕ) (x : RunEventStream)
    → (t' == t && r' == r) ≡ false
    → has_key t' r' x ≡ true
    → has_key t r x ≡ false
other_key t r t' r' x h k = ground arith

-- A stream of another key, put or opened, is not found.
pub put_other :
    (t r t' r' : ℕ) (s' : RunEventStream) (b : EventBroker)
    → (t' == t && r' == r) ≡ false
    → has_key t' r' s' ≡ true
    → find_stream t r (put_stream t' r' s' b) ≡ find_stream t r b
unfolding find_stream
put_other t r t' r' s' b h k =
    find_first-update_other (has_key t r) (has_key t' r') (λ _. s') b.streams
      (λ x _. other_key t r t' r' s' h k) (λ x e. other_key t r t' r' x h e)

pub put_same :
    (t r : ℕ) (s s' : RunEventStream) (b : EventBroker)
    → find_stream t r b ≡ some s
    → has_key t r s' ≡ true
    → find_stream t r (put_stream t r s' b) ≡ some s'
unfolding find_stream
put_same t r s s' b found k = find_first-update (has_key t r) (λ _. s') b.streams s (λ x _. k) found

open_other :
    (t r t' r' : ℕ) (b : EventBroker) (o : Option RunEventStream)
    → (t' == t && r' == r) ≡ false
    → find_stream t r (or_open t' r' b o).1 ≡ find_stream t r b
unfolding find_stream fresh_stream
open_other t r t' r' b none h = ground arith
open_other t r t' r' b (some s) h = refl

pub key-publish :
    (t r : ℕ) (kind : EventType) (body : Payload) (now : ℕ) (s : RunEventStream)
    → has_key t r s ≡ true
    → has_key t r (publish kind body now s).1 ≡ true
unfolding publish append_event
key-publish t r kind body now s h = ground arith

pub key-subscribe :
    (t r size uuid after now : ℕ) (s : RunEventStream)
    → has_key t r s ≡ true
    → has_key t r (subscribe size uuid after now s).1 ≡ true
unfolding subscribe
key-subscribe t r size uuid after now s h = h

pub key-unsubscribe :
    (t r id : ℕ) (s : RunEventStream) → has_key t r s ≡ true → has_key t r (unsubscribe id s) ≡ true
unfolding unsubscribe
key-unsubscribe t r id s h = h

pub find_stream-key :
    (t r : ℕ) (b : EventBroker) (s : RunEventStream)
    → find_stream t r b ≡ some s
    → has_key t r s ≡ true
unfolding find_stream
find_stream-key t r b s found = (find_first-some (has_key t r) b.streams s found).0

pub ensure_found :
    (t r now : ℕ) (b : EventBroker) (s : RunEventStream)
    → find_stream t r b ≡ some s
    → s.terminal_at ≡ none
    → ensure_stream t r now b ≡ (s, prune now b)
unfolding ensure_stream
ensure_found t r now b s found alive = rw (prune-find t r now b s found alive) refl

or_open-key :
    (t r : ℕ) (b : EventBroker) (o : Option RunEventStream)
    → ((s : RunEventStream) → o ≡ some s → has_key t r s ≡ true)
    → has_key t r (or_open t r b o).0 ≡ true
unfolding fresh_stream
or_open-key t r b none h = ground arith
or_open-key t r b (some s) h = h s refl

pub ensure_stream-key :
    (t r now : ℕ) (b : EventBroker) → has_key t r (ensure_stream t r now b).0 ≡ true
unfolding ensure_stream
ensure_stream-key t r now b =
    or_open-key t r (prune now b) (find_stream t r (prune now b))
      (find_stream-key t r (prune now b))

pub ensure_stream-other :
    (t r t' r' now : ℕ) (b : EventBroker) (s : RunEventStream)
    → (t' == t && r' == r) ≡ false
    → find_stream t r b ≡ some s
    → s.terminal_at ≡ none
    → find_stream t r (ensure_stream t' r' now b).1 ≡ some s
unfolding ensure_stream
ensure_stream-other t r t' r' now b s h found alive =
    open_other t r t' r' (prune now b) (find_stream t' r' (prune now b)) h
    ∙ prune-find t r now b s found alive

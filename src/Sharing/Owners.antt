-- ===== src/Sharing/Owners.antt =====
-- topic.go: the queue of a topic in a memory that others write to. What others hold is a test on the
-- addresses: the slices they made, those of the envelopes, and those of the messages they were
-- served. The ID's slice of a queued message counts as theirs, since gOuroboros may have kept it.
pub mod Growth
pub mod Acceptance
pub mod Serving
pub mod Values
pub mod Calls
use dmq_lib.Prelude.{
  ℕ, Bool, true, false, ◌&&◌, ◌||◌, Option, none, some, List, [], ◌∷◌, ◌++◌, ◌==◌, nat_eq, Bytes,
  if◌then◌else◌, filter, map,
}
use dmq_lib.Wire.{DmqMessage}
use dmq_lib.Sharing.{
  Heap, Slice, SharedMessage, message_at, write, alloc, clone_bytes, clone_message,
}

pub record SharedTopic : Type 0 where
  pub heap : Heap
  pub queue : List SharedMessage
  pub held : ℕ → Bool

-- The addresses held, with the slice's.
abbrev pub hold : Slice → (ℕ → Bool) → ℕ → Bool
hold none held = held
hold (some a) held = λ b. a == b || held b

abbrev pub hold_message : SharedMessage → (ℕ → Bool) → ℕ → Bool
hold_message m held = hold m.message_id (
    hold m.message_body (
      hold m.kes_signature (
        hold m.operational_certificate.kes_verification_key
          (hold m.operational_certificate.cold_signature (hold m.cold_verification_key held)))))

abbrev pub is_held : (ℕ → Bool) → Slice → Bool
is_held held none = true
is_held held (some a) = held a

abbrev pub is_message_held : (ℕ → Bool) → SharedMessage → Bool
is_message_held held m =
    is_held held m.message_id
    && is_held held m.message_body
    && is_held held m.kes_signature
    && is_held held m.operational_certificate.kes_verification_key
    && is_held held m.operational_certificate.cold_signature
    && is_held held m.cold_verification_key

-- What others do, and what they call: the acceptance of a message, `messagesByIDs`, and whatever
-- prunes the queue.
pub data SharedCall : Type 0 where
  makes : Bytes → SharedCall
  writes : ℕ → Bytes → SharedCall
  submits : SharedMessage → SharedCall
  asks : (DmqMessage → Bool) → SharedCall
  prunes : (DmqMessage → Bool) → SharedCall

-- The slices of `submitSigned`: the envelope's message, ID and body, and the queued message.
pub record Accepted : Type 0 where
  pub heap : Heap
  pub message : SharedMessage
  pub id : Slice
  pub body : Slice
  pub queued : SharedMessage

abbrev pub hold_messages : List SharedMessage → (ℕ → Bool) → ℕ → Bool
hold_messages [] held = held
hold_messages (m ∷ ms) held = hold_message m (hold_messages ms held)

abbrev pub shows : (DmqMessage → Bool) → Heap → SharedMessage → Bool
shows test h m = test (message_at h m)

module _ (set_message_id : Heap → Slice → Heap × Slice) where
  unfoldable pub accept_copies : Heap → SharedMessage → Accepted
  accept_copies h m =
      let (h1, message) = clone_message set_message_id h m in
      let (h2, id) = clone_bytes h1 m.message_id in
      let (h3, body) = clone_bytes h2 m.message_body in
      let (h4, queued) = clone_message set_message_id h3 m in
      record { heap = h4; message = message; id = id; body = body; queued = queued }

  -- The loop of `messagesByIDs`, over the messages that are wanted and valid.
  unfoldable pub serve_copies : Heap → List SharedMessage → Heap × List SharedMessage
  serve_copies h [] = (h, [])
  serve_copies h (m ∷ ms) =
      let (h1, copy) = clone_message set_message_id h m in
      let (h2, copies) = serve_copies h1 ms in (h2, copy ∷ copies)

  unfoldable pub shared_step : SharedTopic → SharedCall → SharedTopic
  unfolding alloc write accept_copies serve_copies
  shared_step t (makes bytes) = record t {
    heap = alloc t.heap bytes;
    held = hold (some t.heap.next) t.held;
  }
  shared_step t (writes a bytes) = if t.held a then record t { heap = write t.heap a bytes } else t
  shared_step t (submits m) =
      let c = accept_copies t.heap m in
      if is_message_held t.held m
      then record t {
        heap = c.heap;
        queue = t.queue ++ c.queued ∷ [];
        held = hold c.queued.message_id (hold_message c.message (hold c.id (hold c.body t.held)));
      }
      else t
  shared_step t (asks test) =
      let (h, served) = serve_copies t.heap (filter (shows test t.heap) t.queue) in
      record t { heap = h; held = hold_messages served t.held }
  shared_step t (prunes test) = record t { queue = filter (shows test t.heap) t.queue }

-- ===== src/Topic/Invariant.antt =====
-- What every method of topic.go keeps true of a topic.
use dmq_lib.Prelude.{
  ℕ, ◌≤◌, ◌≡◌, ◌∙◌, String, Bool, true, false, Option, none, some, List, [], ◌∷◌, ◌++◌, length,
  length-append, length-filter-le, All, if◌then◌else◌, nat_eq, bytes_eq, Bytes, arith, Option-cases,
  option_cases, inl, inr,
}
use dmq_lib.Prelude.Int.{ℤ, pos, ltb_ℤ, ◌≤ℤ◌}
use dmq_lib.Errors.{Error, RejectReason, reject_reason_from_error}
use dmq_lib.Prelude.Dict.{Dict, IsMap, insert-IsMap, retain-IsMap}
use dmq_lib.Time.{Time, is_nonpositive}
use dmq_lib.Selector.{PeerSelector}
use dmq_lib.Peer.{Peer}
use dmq_lib.Wire.{DmqMessage, Wire}
use dmq_lib.Config.{Message, message_source_local}
use dmq_lib.Topic.{
  TopicRuntime, Outcome, call_rejected, call_accepted, call_error, reject, Event, prune_seen_locked,
  prune_queue_locked, pruned, admit, envelope, clone_message, normalize_and_validate_message,
  submit_signed, returned, publish, message_ids, messages_by_ids,
}
use dmq_lib.Topic.Cases.{admit_cases, submit_cases, publish_cases}
use dmq_lib.Topic.Channel.{send_all}
use dmq_lib.Topic.Wiring.{AllOpen, IsDistinct, AllOpen-send_all, send_all-panicked}
use dmq_lib.Topic.Buffers.{AllFit, send_all-Fits}

-- After at most `n` subscriptions. The queue keeps to its limit; the subscribers are distinct, with
-- numbers given out so far, and their channels are open; no buffer passes its capacity; no send or
-- close has panicked; a closed topic has no subscriber; and no ID is remembered twice.
pub record IsSound (n : ℕ) (t : TopicRuntime) : Type 0 where
  pub sized : pos 0 ≤ℤ t.cfg.queue.subscriber_buffer
  pub bounded : pos (length t.queue) ≤ℤ t.cfg.queue.max_messages
  pub counted : t.next_sub_id ≤ n
  pub below : All (λ id. id ≤ t.next_sub_id) t.subscribers
  pub distinct : IsDistinct t.subscribers
  pub opened : AllOpen t.channels t.subscribers
  pub fits : AllFit t.channels
  pub calm : t.channels.panicked ≡ false
  pub emptied : t.closed ≡ true → t.subscribers ≡ []
  pub keyed : IsMap t.seen

if-IsSound :
    (n : ℕ) (b : Bool) (t u : TopicRuntime)
    → IsSound n t
    → IsSound n u
    → IsSound n (if b then t else u)
if-IsSound n true t u s r = s
if-IsSound n false t u s r = r

-- The invariant says nothing of the events and of the peers, and little of the seen IDs.
pub retold-IsSound :
    (n : ℕ) (t : TopicRuntime) (es : List Event) (seen : Dict Bytes Time) (p : PeerSelector)
    → IsMap seen
    → IsSound n t
    → IsSound n (record t { events = es; seen = seen; peer_selector = p })
retold-IsSound n t es seen p k s = record {
  sized = s.sized;
  bounded = s.bounded;
  counted = s.counted;
  below = s.below;
  distinct = s.distinct;
  opened = s.opened;
  fits = s.fits;
  calm = s.calm;
  emptied = s.emptied;
  keyed = k;
}

call_rejected-IsSound :
    (n : ℕ) (t : TopicRuntime) (m : DmqMessage) (r : RejectReason)
    → IsSound n t
    → IsSound n (call_rejected t m r)
unfolding call_rejected
call_rejected-IsSound n t m r s =
    if-IsSound n t.cfg.hooks.on_message_rejected _ t (retold-IsSound n t _ t.seen _ s.keyed s) s

call_accepted-IsSound :
    (n : ℕ) (t : TopicRuntime) (m : Message) → IsSound n t → IsSound n (call_accepted t m)
unfolding call_accepted
call_accepted-IsSound n t m s =
    if-IsSound n t.cfg.hooks.on_message_accepted _ t (retold-IsSound n t _ t.seen _ s.keyed s) s

pub call_error-IsSound :
    (n : ℕ) (t : TopicRuntime) (e : Error) → IsSound n t → IsSound n (call_error t e)
unfolding call_error
call_error-IsSound n t e s =
    if-IsSound n t.cfg.hooks.on_error _ t (retold-IsSound n t _ t.seen _ s.keyed s) s

reject-IsSound :
    (n : ℕ) (t : TopicRuntime) (m : DmqMessage) (e : Error) → IsSound n t → IsSound n (reject t m e)
unfolding reject
reject-IsSound n t m e s = elim (Option-cases (reject_reason_from_error (some e))) [
  | inl none_given ↦ rw (none_given, reject) s
  | inr (r, given) ↦ rw (given, reject) (call_rejected-IsSound n t m r s)
]

module _ (w : Wire) where
  prune_queue-IsSound :
      (n : ℕ) (now : Time) (t : TopicRuntime) → IsSound n t → IsSound n (prune_queue_locked w now t)
  unfolding prune_queue_locked
  prune_queue-IsSound n now t s = record {
    sized = s.sized;
    bounded = omega (arith, length-filter-le {0}, s.bounded);
    counted = s.counted;
    below = s.below;
    distinct = s.distinct;
    opened = s.opened;
    fits = s.fits;
    calm = s.calm;
    emptied = s.emptied;
    keyed = s.keyed;
  }

  prune_seen-IsSound :
      (n : ℕ) (now : Time) (t : TopicRuntime) → IsSound n t → IsSound n (prune_seen_locked w now t)
  unfolding prune_seen_locked
  prune_seen-IsSound n now t s =
      if-IsSound n (is_nonpositive t.cfg.queue.duplicate_ttl) t _ s
        (retold-IsSound n t t.events _ t.peer_selector (retain-IsMap _ t.seen s.keyed) s)

  -- A message goes into a queue that has room, and out to the subscribers.
  enqueue-IsSound :
      (n : ℕ) (t : TopicRuntime) (seen : Dict Bytes Time) (m : DmqMessage) (env : Message)
      → ltb_ℤ (pos (length t.queue)) t.cfg.queue.max_messages ≡ true
      → IsMap seen
      → IsSound n t
      → IsSound n (record t {
        seen = seen;
        queue = t.queue ++ m ∷ [];
        channels = send_all t.subscribers env t.channels;
      })
  enqueue-IsSound n t seen m env room k s = record {
    sized = s.sized;
    bounded = ground (arith, length-append t.queue (m ∷ []));
    counted = s.counted;
    below = s.below;
    distinct = s.distinct;
    opened = AllOpen-send_all t.subscribers t.subscribers env t.channels s.opened;
    fits = send_all-Fits t.subscribers env t.channels s.fits;
    calm = send_all-panicked t.subscribers env t.channels s.opened ∙ s.calm;
    emptied = s.emptied;
    keyed = k;
  }

  admit-IsSound :
      (n : ℕ) (t : TopicRuntime) (m : DmqMessage) (source : String) (peer : Option Peer)
      (now : Time)
      → IsSound n t
      → IsSound n (admit w t m source peer now).topic
  unfolding admit
  admit-IsSound n t m source peer now s =
      let u = pruned w now t in
      let r : IsSound n u =
        prune_queue-IsSound n now (prune_seen_locked w now t) (prune_seen-IsSound n now t s) in
      admit_cases w t source peer now (λ o. IsSound n o.topic) m (λ _. s)
        (λ _ _. call_rejected-IsSound n u m _ r) (λ _ _ _. call_rejected-IsSound n u m _ r)
        (λ _ _ room. call_accepted-IsSound n _ _ (
          enqueue-IsSound n u _ (clone_message w m) (envelope w t m source peer now) room
            (insert-IsMap (w.msg_id m) now u.seen r.keyed) r))

  -- `submitSigned`
  pub submit_signed-IsSound :
      (n : ℕ) (t : TopicRuntime) (msg : Option DmqMessage) (source : String) (peer : Option Peer)
      (checked now : Time)
      → IsSound n t
      → IsSound n (submit_signed w t msg source peer checked now).topic
  submit_signed-IsSound n t none source peer checked now s = unfold submit_signed in s
  submit_signed-IsSound n t (some msg) source peer checked now s =
      let m = (normalize_and_validate_message w msg).0 in
      submit_cases w t source peer now (λ o. IsSound n o.topic) checked msg
        (λ e _. reject-IsSound n t m e s) (λ e _ _. reject-IsSound n t m e s)
        (λ e _ _ _. call_rejected-IsSound n t m _ s)
        (λ _ _ _. admit-IsSound n t m source peer now s)

  returned-IsSound : (n : ℕ) (o : Outcome) → IsSound n o.topic → IsSound n (returned w o).topic
  returned-IsSound n o s =
      option_cases (λ r. IsSound n r.topic) o.error o (λ e. record o { msg = none }) (λ _. s)
        (λ _ _. s)

  -- `publish`
  pub publish-IsSound :
      (n : ℕ) (t : TopicRuntime) (body : Bytes) (signed checked now : Time)
      → IsSound n t
      → IsSound n (publish w t body signed checked now).topic
  publish-IsSound n t body signed checked now s =
      publish_cases w t body signed checked now (λ o. IsSound n o.topic) (λ _. s) (λ _ _. s)
        (λ _ _ _ _ _. s)
        (λ _ _ msg _ _ _.
          returned-IsSound n _
            (submit_signed-IsSound n t msg message_source_local none checked now s))

  pub message_ids-IsSound :
      (n : ℕ) (t : TopicRuntime) (max : ℤ) (now : Time)
      → IsSound n t
      → IsSound n (message_ids w t max now).0
  unfolding message_ids
  message_ids-IsSound n t max now s = prune_queue-IsSound n now t s

  pub messages_by_ids-IsSound :
      (n : ℕ) (t : TopicRuntime) (wanted : List Bytes) (now : Time)
      → IsSound n t
      → IsSound n (messages_by_ids w t wanted now).0
  unfolding messages_by_ids
  messages_by_ids-IsSound n t wanted now s = prune_queue-IsSound n now t s

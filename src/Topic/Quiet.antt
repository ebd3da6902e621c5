-- ===== src/Topic/Quiet.antt =====
-- What the hooks and the pruning of topic.go leave alone.
use dmq_lib.Prelude.{◌≡◌, refl, some, if_cases, option_cases}
use dmq_lib.Errors.{Error, RejectReason, reject_reason_from_error}
use dmq_lib.Time.{Time, is_nonpositive}
use dmq_lib.Wire.{DmqMessage, Wire}
use dmq_lib.Config.{Message}
use dmq_lib.Topic.{
  TopicRuntime, call_rejected, call_accepted, call_error, reject, prune_queue_locked,
  prune_seen_locked, pruned,
}

-- Nothing but the events differs.
abbrev pub Quiet : TopicRuntime → TopicRuntime → Type 0
Quiet t u = u ≡ record t { events = u.events }

pub call_rejected-Quiet :
    (t : TopicRuntime) (m : DmqMessage) (r : RejectReason) → Quiet t (call_rejected t m r)
unfolding call_rejected
call_rejected-Quiet t m r =
    if_cases (Quiet t) t.cfg.hooks.on_message_rejected _ _ (λ _. refl) (λ _. refl)

pub call_accepted-Quiet : (t : TopicRuntime) (m : Message) → Quiet t (call_accepted t m)
unfolding call_accepted
call_accepted-Quiet t m =
    if_cases (Quiet t) t.cfg.hooks.on_message_accepted _ _ (λ _. refl) (λ _. refl)

pub call_error-Quiet : (t : TopicRuntime) (e : Error) → Quiet t (call_error t e)
unfolding call_error
call_error-Quiet t e = if_cases (Quiet t) t.cfg.hooks.on_error _ _ (λ _. refl) (λ _. refl)

pub reject-Quiet : (t : TopicRuntime) (m : DmqMessage) (e : Error) → Quiet t (reject t m e)
unfolding reject
reject-Quiet t m e =
    option_cases (Quiet t) (reject_reason_from_error (some e)) _ _ (λ _. refl)
      (λ r _. call_rejected-Quiet t m r)

-- Pruning changes the queue and the seen IDs only.
pub pruned_lem :
    (w : Wire) (now : Time) (t : TopicRuntime)
    → pruned w now t ≡ record t {
      queue = (prune_queue_locked w now t).queue;
      seen = (prune_seen_locked w now t).seen;
    }
unfolding prune_queue_locked prune_seen_locked
pruned_lem w now t =
    if_cases
      (λ u.
        prune_queue_locked w now u
        ≡ record t { queue = (prune_queue_locked w now t).queue; seen = u.seen })
      (is_nonpositive t.cfg.queue.duplicate_ttl) _ _ (λ _. refl) (λ _. refl)

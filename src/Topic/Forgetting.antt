-- ===== src/Topic/Forgetting.antt =====
-- The end of the window of duplicate suppression of topic.go.
use dmq_lib.Prelude.{
  ◌≡◌, ◌↔◌, sym, ap, ◌∙◌, refl, String, Bool, true, false, not, Option, none, some, length, Bytes,
  bytes_eq, arith, inl, inr, Bool-cases,
}
use dmq_lib.Prelude.Dict.{
  lookup, has, retain, IsMap, lookup-retain, has-lookup, has-lookup-none, filtered,
}
use dmq_lib.Prelude.Int.{pos, ltb_ℤ}
use dmq_lib.Time.{Time, time_sub, is_nonpositive}
use dmq_lib.Peer.{Peer}
use dmq_lib.Wire.{DmqMessage, Wire, IsWire}
use dmq_lib.Topic.{
  TopicRuntime, pruned, prune_seen_locked, prune_queue_locked, submit_signed, validate_message_ttl,
  authenticate,
}
use dmq_lib.Topic.Admissible.{IsIdentified, IsAdmissible-iff}

-- The window has passed since the time `at`.
abbrev pub passed : TopicRuntime → Time → Time → Bool
passed t at now = ltb_ℤ t.cfg.queue.duplicate_ttl (time_sub now at)

-- What remains of an ID after the pruning of a submission.
pruned-seen :
    (w : Wire) (t : TopicRuntime) (i : Bytes) (at now : Time)
    → IsMap t.seen
    → is_nonpositive t.cfg.queue.duplicate_ttl ≡ false
    → lookup i t.seen ≡ some at
    → has i (pruned w now t).seen ≡ not (passed t at now)
unfolding prune_seen_locked prune_queue_locked
pruned-seen w t i at now d positive found =
    let keep = λ (_ : Bytes) (then' : Time). not (passed t then' now) in
    let kept = lookup-retain keep i t.seen d ∙ ap (filtered keep i) found in
    elim (Bool-cases (passed t at now)) [
      | inl e ↦
          rw (prune_seen_locked, positive)
            (has-lookup-none i (retain keep t.seen) (kept ∙ rw e refl) ∙ rw e refl)
      | inr e ↦
          rw (prune_seen_locked, positive)
            (has-lookup i (retain keep t.seen) at (kept ∙ rw e refl) ∙ rw e refl)
    ]

not-false : (b : Bool) → not b ≡ false → b ≡ true
not-false b h = ground arith

-- A message whose ID is remembered from the time `at`, and which nothing else keeps out of the open
-- topic (it is identified, in time and authentic, and the queue has room), is accepted exactly where
-- more than the window of duplicate suppression, a positive one, has passed since then; no ID is
-- remembered with two times.
pub resubmission_iff :
    (w : Wire)
    → IsWire w
    → (t : TopicRuntime) (msg : DmqMessage) (source : String) (peer : Option Peer)
    → (checked at now : Time) (i : Bytes) → IsMap t.seen
    → is_nonpositive t.cfg.queue.duplicate_ttl ≡ false
    → lookup i t.seen ≡ some at
    → IsIdentified w msg i
    → validate_message_ttl w msg checked t.cfg.ttl ≡ none
    → authenticate w t.cfg.authentication (w.set_message_id msg i) ≡ none
    → t.closed ≡ false
    → ltb_ℤ (pos (length (pruned w now t).queue)) (pruned w now t).cfg.queue.max_messages ≡ true
    → ((submit_signed w t (some msg) source peer checked now).error ≡ none)
      ↔ (passed t at now ≡ true)
resubmission_iff w law t msg source peer checked at now i d positive found identified timely
      authentic open_topic room =
    let seen = pruned-seen w t i at now d positive found in
    let accepts = IsAdmissible-iff w law t msg source peer checked now in
    (
      λ h.
          let (j, (given, _, _, _, new, _)) = accepts.0 h in
          let same : j ≡ i = cc (given.1, identified.1) in
          not-false (passed t at now) (sym seen ∙ rw (← same) new),
      λ h. accepts.1 (i, (identified, timely, authentic, open_topic, seen ∙ rw h refl, room)),
    )

-- ===== src/Submission/Announcing.antt =====
-- What `newIDs` of protocol.go announces on a connection.
use dmq_lib.Prelude.{
  ℕ, ◌+◌, ◌-◌, ◌≡◌, refl, String, Bool, true, false, ◌||◌, ◌&&◌, not, List, [], ◌∷◌, ◌++◌, ==_iff,
  bytes_eq, filter, take, take_zero, All, Bytes, arith,
}
use dmq_lib.Prelude.Int.{pos}
use dmq_lib.Time.{Time}
use dmq_lib.Wire.{MessageIdAndSize, Wire}
use dmq_lib.Topic.{TopicRuntime, message_ids}
use dmq_lib.Run.{Call, run}
use dmq_lib.Submission.{SubmissionFlow, mem, ids_of, unannounced, announce, new_ids}

-- The loop is a filter and a bound; `room` is what the bound leaves.
unannounced_lem :
    (announced : List Bytes) (max taken room : ℕ) (ids : List MessageIdAndSize)
    → room ≡ max - taken
    → unannounced announced max taken ids
      ≡ take room (filter (λ i. not (mem i.message_id announced)) ids)
unfolding unannounced
unannounced_lem announced max taken room [] h = refl
unannounced_lem announced max taken room (i ∷ ids) h = ground (
  arith,
  take_zero room (filter (λ i. not (mem i.message_id announced)) ids),
  unannounced_lem announced max taken room ids h,
  unannounced_lem announced max (taken + 1) (room - 1) ids (omega (arith, h)),
)

-- What is announced is the first `max` of the valid IDs in the queue that were not announced yet.
pub new_ids_exact :
    (w : Wire) (t : TopicRuntime) (f : SubmissionFlow) (max : ℕ) (now : Time)
    → (new_ids w t f max now).2
      ≡ take max (filter (λ i. not (mem i.message_id f.announced)) (message_ids w t (pos 0) now).1)
unfolding new_ids
new_ids_exact w t f max now =
    unannounced_lem f.announced max 0 max (message_ids w t (pos 0) now).1 (omega arith)

mem-append : (i : Bytes) (xs ys : List Bytes) → mem i (xs ++ ys) ≡ (mem i xs || mem i ys)
mem-append i [] ys = refl
mem-append i (x ∷ xs) ys = ground (arith, mem-append i xs ys)

mem-filter :
    (i : Bytes) (p : Bytes → Bool) (xs : List Bytes) → mem i (filter p xs) ≡ (p i && mem i xs)
mem-filter i p [] = ground arith
mem-filter i p (x ∷ xs) = ground (arith, ==_iff x i, mem-filter i p xs)

-- An ID that was announced and is still queued is not announced again.
mem-unannounced :
    (i : Bytes) (announced : List Bytes) (max taken : ℕ) (ids : List MessageIdAndSize)
    → mem i announced ≡ true
    → mem i (ids_of (unannounced announced max taken ids)) ≡ false
unfolding unannounced
mem-unannounced i announced max taken [] h = refl
mem-unannounced i announced max taken (x ∷ ids) h = ground (
  arith,
  ==_iff x.message_id i,
  mem-unannounced i announced max taken ids h,
  mem-unannounced i announced max (taken + 1) ids h,
)

module _ (w : Wire) where
  abbrev pub queued_at : TopicRuntime → Time → Bytes → Bool
  queued_at t now i = mem i (ids_of (message_ids w t (pos 0) now).1)

  new_ids-announced :
      (t : TopicRuntime) (f : SubmissionFlow) (max : ℕ) (now : Time) (i : Bytes)
      → mem i (new_ids w t f max now).1.announced
        ≡ ((queued_at t now i && mem i f.announced) || mem i (ids_of (new_ids w t f max now).2))
  unfolding new_ids announce
  new_ids-announced t f max now i = rw (mem-append, mem-filter) refl

  module _ (ip_string : Bytes → String) where
    -- The batches of `newIDs` at the polls of a connection; before each, the calls of others.
    pub batches :
        TopicRuntime → SubmissionFlow → List (List Call × ℕ × Time) → List (List MessageIdAndSize)
    batches t f [] = []
    batches t f ((others, max, now) ∷ polls) =
        let (u, g, ids) = new_ids w (run w ip_string t others) f max now in ids ∷ batches u g polls

    -- At every poll the ID is in the queue, with a message that is valid then.
    abbrev pub QueuedThroughout :
        Bytes → TopicRuntime → SubmissionFlow → List (List Call × ℕ × Time) → Type 0
    QueuedThroughout i t f [] = Unit
    QueuedThroughout i t f ((others, max, now) ∷ polls) =
        let t' = run w ip_string t others in
        (queued_at t' now i ≡ true)
        × QueuedThroughout i (new_ids w t' f max now).0 (new_ids w t' f max now).1 polls

    not_again :
        (i : Bytes) (t : TopicRuntime) (f : SubmissionFlow) (polls : List (List Call × ℕ × Time))
        → mem i f.announced ≡ true
        → QueuedThroughout i t f polls
        → All (λ ids. mem i (ids_of ids) ≡ false) (batches t f polls)
    unfolding batches
    not_again i t f [] h q = tt
    not_again i t f ((others, max, now) ∷ polls) h q =
        let t' = run w ip_string t others in
        (
          unfold new_ids in mem-unannounced i f.announced max 0 (message_ids w t' (pos 0) now).1 h,
          not_again i (new_ids w t' f max now).0 (new_ids w t' f max now).1 polls
              (ground (arith, new_ids-announced t' f max now i, h, q.0)) q.1,
        )

-- An ID that was announced on a connection is in no later batch, whatever others do to the topic
-- between the polls, as long as each poll finds it in the queue with a valid message.
pub announced_once :
    (w : Wire) (ip_string : Bytes → String) (t : TopicRuntime) (f : SubmissionFlow) (max : ℕ)
    (now : Time) (i : Bytes) (polls : List (List Call × ℕ × Time))
    → mem i (ids_of (new_ids w t f max now).2) ≡ true
    → QueuedThroughout w ip_string i (new_ids w t f max now).0 (new_ids w t f max now).1 polls
    → All
        (λ ids. mem i (ids_of ids) ≡ false)
        (batches w ip_string (new_ids w t f max now).0 (new_ids w t f max now).1 polls)
announced_once w ip_string t f max now i polls h q =
    not_again w ip_string i (new_ids w t f max now).0 (new_ids w t f max now).1 polls
      (ground (arith, new_ids-announced w t f max now i, h)) q

-- ===== src/Topic/Listing.antt =====
-- What topic.go lists and serves of its queue.
use dmq_lib.Prelude.{
  ℕ, ◌+◌, ◌-◌, ◌%◌, ◌^◌, ◌<◌, ◌≡◌, refl, ap, ◌∙◌, Bool, false, ◌&&◌, List, [], ◌∷◌, length, filter,
  map, any, take, take_zero, ◌==◌, bytes_eq, Bytes, arith, filter_keeps, filter-All,
}
use dmq_lib.Prelude.Int.{ℤ, pos, ltb_ℤ}
use dmq_lib.Errors.{Result, ok, err}
use dmq_lib.Time.{Time}
use dmq_lib.Wire.{DmqMessage, MessageIdAndSize, Wire}
use dmq_lib.Config.{TtlPolicy}
use dmq_lib.Topic.{
  TopicRuntime, is_nil, validate_message_ttl, collect_ids, message_ids, messages_by_ids,
  prune_queue_locked, clone_message,
}

module _ (w : Wire) where
  -- The entry of a message that can be encoded.
  abbrev pub entries_of : DmqMessage → Result Bytes → List MessageIdAndSize → List MessageIdAndSize
  entries_of m (err e) rest = rest
  entries_of m (ok bytes) rest =
      record { message_id = w.msg_id m; size_in_bytes = length bytes % 2 ^ 32 } ∷ rest

  -- The IDs and sizes of the messages, without those that cannot be encoded.
  abbrev pub listed : List DmqMessage → List MessageIdAndSize
  listed [] = []
  listed (m ∷ ms) = entries_of m (w.encode m) (listed ms)

  abbrev pub is_valid : TtlPolicy → Time → DmqMessage → Bool
  is_valid policy now m = is_nil (validate_message_ttl w m now policy)

  collect_all :
      (policy : TtlPolicy) (now : Time) (max : ℤ) (taken : ℕ) (ms : List DmqMessage)
      → ltb_ℤ (pos 0) max ≡ false
      → collect_ids w policy now max taken ms ≡ listed (filter (is_valid policy now) ms)
  unfolding collect_ids
  collect_all policy now max taken [] h = refl
  collect_all policy now max taken (m ∷ ms) h =
      ground (
        arith,
        h,
        collect_all policy now max taken ms h,
        collect_all policy now max (taken + 1) ms h,
      )

  collect_some :
      (policy : TtlPolicy) (now : Time) (n taken room : ℕ) (ms : List DmqMessage)
      → taken + room ≡ n
      → 0 < room
      → collect_ids w policy now (pos n) taken ms
        ≡ take room (listed (filter (is_valid policy now) ms))
  unfolding collect_ids
  collect_some policy now n taken room [] e h = refl
  collect_some policy now n taken room (m ∷ ms) e h = ground (
    arith,
    e,
    h,
    take_zero (room - 1) (listed (filter (is_valid policy now) ms)),
    collect_some policy now n taken room ms e h,
    λ (p : 0 < room - 1).
        collect_some policy now n (taken + 1) (room - 1) ms (omega (arith, e, h)) p,
  )

  pruned_twice :
      (policy : TtlPolicy) (now : Time) (ms : List DmqMessage)
      → filter (is_valid policy now) (filter (is_valid policy now) ms)
        ≡ filter (is_valid policy now) ms
  pruned_twice policy now ms =
      filter_keeps (is_valid policy now) (filter (is_valid policy now) ms)
        (filter-All (is_valid policy now) ms)

  filter_both :
      (p q : DmqMessage → Bool) (ms : List DmqMessage)
      → filter (λ m. p m && q m) (filter q ms) ≡ filter (λ m. p m && q m) ms
  filter_both p q [] = refl
  filter_both p q (m ∷ ms) = ground (arith, filter_both p q ms)

  abbrev pub valid_queue : TopicRuntime → Time → List DmqMessage
  valid_queue t now = filter (is_valid t.cfg.ttl now) t.queue

-- The listing of a topic is, in the order of the queue, the IDs and sizes of the messages that are
-- valid at the time and can be encoded, at most as many as the maximum says where it is positive, and
-- all of them where it is not.
pub message_ids_exact :
    (w : Wire) (t : TopicRuntime) (n : ℕ) (no_max : ℤ) (now : Time)
    → 0 < n
    → ltb_ℤ (pos 0) no_max ≡ false
    → ((message_ids w t (pos n) now).1 ≡ take n (listed w (valid_queue w t now)))
      × ((message_ids w t no_max now).1 ≡ listed w (valid_queue w t now))
unfolding message_ids prune_queue_locked
message_ids_exact w t n no_max now h k =
    let twice = ap (listed w) (pruned_twice w t.cfg.ttl now t.queue) in
    (
      collect_some w t.cfg.ttl now n 0 n (valid_queue w t now) (omega arith) h ∙ ap (take n) twice,
      collect_all w t.cfg.ttl now no_max 0 (valid_queue w t now) k ∙ twice,
    )

-- What a topic serves is, in the order of the queue, its valid messages whose IDs are wanted, as
-- copies; and serving, or listing up to any maximum, leaves the valid messages in the queue, and
-- nothing else.
pub messages_by_ids_exact :
    (w : Wire) (t : TopicRuntime) (wanted : List Bytes) (max : ℤ) (now : Time)
    → ((messages_by_ids w t wanted now).1
        ≡ map
            (clone_message w)
            (filter (λ m. any (λ i. i == w.msg_id m) wanted && is_valid w t.cfg.ttl now m) t.queue))
      × ((messages_by_ids w t wanted now).0.queue ≡ valid_queue w t now)
      × ((message_ids w t max now).0.queue ≡ valid_queue w t now)
unfolding messages_by_ids message_ids prune_queue_locked
messages_by_ids_exact w t wanted max now = (
  ap (map (clone_message w))
      (filter_both w (λ m. any (λ i. i == w.msg_id m) wanted) (is_valid w t.cfg.ttl now) t.queue),
  refl,
  refl,
)

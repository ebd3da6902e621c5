-- ===== src/Sharing/Owners/Values.antt =====
-- topic.go: what the slices of a topic's queue show, beside others who write.
use dmq_lib.Prelude.{
  ℕ, ◌≡◌, refl, ap, Bool, true, none, some, List, [], ◌∷◌, ◌++◌, ==_iff, nat_eq, arith,
  if◌then◌else◌, All, All-mono, filter, map, Bytes,
}
use dmq_lib.Wire.{DmqMessage}
use dmq_lib.Sharing.{Heap, Slice, SharedMessage, message_at, read, write}
use dmq_lib.Sharing.Copies.{OnMessage, IsBelow}
use dmq_lib.Sharing.Owners.{
  SharedTopic, SharedCall, makes, writes, submits, asks, prunes, is_held, is_message_held, shows,
}
use dmq_lib.Sharing.Owners.Growth.{IsMade, Grows, OnMessage-mono, messages_at-Extends}
use dmq_lib.Sharing.Owners.Acceptance.{IsOwn, IsOwn-Grows, IsOwn→IsBelow, is_held_more}

-- What the slices of the queue show.
abbrev pub shown : SharedTopic → List DmqMessage
shown t = map (message_at t.heap) t.queue

-- Nobody else holds an array of a queued message, but for its ID's.
pub record IsApart (t : SharedTopic) : Type 0 where
  pub made : IsMade t.heap t.held
  pub own : All (OnMessage (IsOwn t.heap t.held)) t.queue
  pub ids : All (λ m. is_held t.held m.message_id ≡ true) t.queue

-- The queue that a call leaves, by values.
abbrev pub shown_step : SharedTopic → SharedCall → List DmqMessage → List DmqMessage
shown_step t (makes bytes) q = q
shown_step t (writes a bytes) q = q
shown_step t (submits m) q = if is_message_held t.held m then q ++ message_at t.heap m ∷ [] else q
shown_step t (asks test) q = q
shown_step t (prunes test) q = filter test q

pub map-filter :
    (test : DmqMessage → Bool) (h : Heap) (ms : List SharedMessage)
    → map (message_at h) (filter (shows test h) ms) ≡ filter test (map (message_at h) ms)
map-filter test h [] = refl
map-filter test h (m ∷ ms) = ground (arith, map-filter test h ms)

pub map-append :
    (h : Heap) (ms : List SharedMessage) (m : SharedMessage)
    → map (message_at h) (ms ++ m ∷ []) ≡ map (message_at h) ms ++ message_at h m ∷ []
map-append h [] m = refl
map-append h (n ∷ ms) m = ap (λ xs. message_at h n ∷ xs) (map-append h ms m)

read-write :
    (h : Heap) (p : ℕ → Bool) (a : ℕ) (bytes : Bytes) (s : Slice)
    → p a ≡ true
    → IsOwn h p s
    → read (write h a bytes) s ≡ read h s
unfolding write
read-write h p a bytes none e o = refl
read-write h p a bytes (some b) e o = ground (arith, ==_iff b a, e, o.1)

pub messages_at-write :
    (h : Heap) (p : ℕ → Bool) (a : ℕ) (bytes : Bytes) (ms : List SharedMessage)
    → p a ≡ true
    → All (OnMessage (IsOwn h p)) ms
    → map (message_at (write h a bytes)) ms ≡ map (message_at h) ms
messages_at-write h p a bytes [] e o = refl
messages_at-write h p a bytes (m ∷ ms) e o =
    let cert = m.operational_certificate in
    let own = o.0 in
    cc (
      read-write h p a bytes m.message_body e own.0,
      read-write h p a bytes m.kes_signature e own.1,
      read-write h p a bytes cert.kes_verification_key e own.2,
      read-write h p a bytes cert.cold_signature e own.3,
      read-write h p a bytes m.cold_verification_key e own.4,
      messages_at-write h p a bytes ms e o.1,
    )

pub own-IsBelow : (t : SharedTopic) → IsApart t → All (OnMessage (IsBelow t.heap.next)) t.queue
own-IsBelow t i =
    All-mono (OnMessage (IsOwn t.heap t.held)) (OnMessage (IsBelow t.heap.next)) t.queue
      (λ m o.
        OnMessage-mono (IsOwn t.heap t.held) (IsBelow t.heap.next) m (IsOwn→IsBelow t.heap t.held)
          o)
      i.own

-- Where the memory and what others hold grow, the queue stays the topic's, and shows the same.
pub grown :
    (t : SharedTopic) (k : Heap) (q : ℕ → Bool)
    → IsApart t
    → Grows t.heap t.held k q
    → IsApart (record t { heap = k; held = q }) × (map (message_at k) t.queue ≡ shown t)
grown t k q i g = (
  record {
    made = g.made;
    own =
        All-mono (OnMessage (IsOwn t.heap t.held)) (OnMessage (IsOwn k q)) t.queue
          (λ m o.
            OnMessage-mono (IsOwn t.heap t.held) (IsOwn k q) m
              (λ s x. IsOwn-Grows t.heap k t.held q s g x) o)
          i.own;
    ids =
        All-mono (λ m. is_held t.held m.message_id ≡ true) (λ m. is_held q m.message_id ≡ true)
          t.queue (λ m e. is_held_more t.heap k t.held q m.message_id g e) i.ids;
  },
  messages_at-Extends t.heap k t.queue g.extends (own-IsBelow t i),
)

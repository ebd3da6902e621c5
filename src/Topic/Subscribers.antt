-- ===== src/Topic/Subscribers.antt =====
-- `subscribe`, `unsubscribe`, `close` and `Subscription.Close` of topic.go keep the invariant.
use dmq_lib.Prelude.{
  ℕ, ◌+◌, ◌%◌, ◌^◌, ◌≤◌, ◌<◌, ◌≡◌, refl, ◌∙◌, Bool, true, false, not, Option, none, some, List, [],
  ◌∷◌, ◌++◌, filter, any, All, All-append, All-filter, ◌==◌, ==_iff, nat_eq, arith, if_cases,
}
use dmq_lib.Errors.{Error}
use dmq_lib.Topic.{
  TopicRuntime, Subscription, subscribe, close, unsubscribe, close_subscription, receive_message,
}
use dmq_lib.Topic.Channel.{Channels, make_chan, close_chan}
use dmq_lib.Topic.Wiring.{
  is_open, AllOpen, IsDistinct, Absent, AllOpen-close_chan, AllOpen-make_chan, close_chan-panicked,
  close_all-panicked, AllOpen-receive, receive-panicked, is_open-make_chan, make_chan-panicked,
}
use dmq_lib.Topic.Buffers.{close_chan-Fits, close_all-Fits, make_chan-Fits, receive-Fits}
use dmq_lib.Topic.Invariant.{IsSound}

-- A new number is above all that were given out.
fresh-Absent : (next : ℕ) (ids : List ℕ) → All (λ i. i ≤ next) ids → Absent (next + 1) ids
fresh-Absent next [] h = tt
fresh-Absent next (i ∷ ids) h = ground (arith, ==_iff i (next + 1), fresh-Absent next ids h.1)

below_mono : (next : ℕ) (ids : List ℕ) → All (λ i. i ≤ next) ids → All (λ i. i ≤ next + 1) ids
below_mono next [] h = tt
below_mono next (i ∷ ids) h = (omega arith, below_mono next ids h.1)

IsDistinct-append :
    (ids : List ℕ) (id : ℕ) → Absent id ids → IsDistinct ids → IsDistinct (ids ++ id ∷ [])
IsDistinct-append [] id a d = (tt, tt)
IsDistinct-append (i ∷ ids) id a d = (
  All-append (λ j. (j == i) ≡ false) ids (id ∷ []) d.0 (ground (arith, ==_iff i id, ==_iff id i)),
  IsDistinct-append ids id a.1 d.1,
)

IsDistinct-filter : (p : ℕ → Bool) (ids : List ℕ) → IsDistinct ids → IsDistinct (filter p ids)
IsDistinct-filter p [] d = tt
IsDistinct-filter p (i ∷ ids) d =
    ground (arith, All-filter (λ j. (j == i) ≡ false) p ids d.0, IsDistinct-filter p ids d.1)

Absent-filter : (id : ℕ) (ids : List ℕ) → Absent id (filter (λ i. not (i == id)) ids)
Absent-filter id [] = tt
Absent-filter id (i ∷ ids) = ground (arith, Absent-filter id ids)

any-is_open :
    (id : ℕ) (cs : Channels) (ids : List ℕ)
    → any (λ i. i == id) ids ≡ true
    → AllOpen cs ids
    → is_open cs id ≡ true
any-is_open id cs [] h a = cc
any-is_open id cs (i ∷ ids) h a = ground (arith, ==_iff i id, any-is_open id cs ids)

subscribe_closed-IsSound :
    (n : ℕ) (t : TopicRuntime) (next : ℕ)
    → next ≡ t.next_sub_id + 1
    → t.subscribers ≡ []
    → IsSound n t
    → IsSound (n + 1) (record t {
      next_sub_id = next;
      channels = close_chan next (make_chan next t.cfg.queue.subscriber_buffer t.channels);
    })
subscribe_closed-IsSound n t next e gone s =
    let cs = make_chan next t.cfg.queue.subscriber_buffer t.channels in
    record {
      sized = s.sized;
      bounded = s.bounded;
      counted = omega (arith, s.counted);
      below = rw gone tt;
      distinct = s.distinct;
      opened = rw gone tt;
      fits =
          close_chan-Fits next cs
            (make_chan-Fits next t.cfg.queue.subscriber_buffer t.channels s.sized s.fits);
      calm =
          close_chan-panicked next cs (
            is_open-make_chan next next t.cfg.queue.subscriber_buffer t.channels
            ∙ ground (arith, ==_iff next next))
          ∙ make_chan-panicked next t.cfg.queue.subscriber_buffer t.channels
          ∙ s.calm;
      emptied = s.emptied;
      keyed = s.keyed;
    }

subscribe_open-IsSound :
    (n : ℕ) (t : TopicRuntime) (next : ℕ)
    → next ≡ t.next_sub_id + 1
    → t.closed ≡ false
    → IsSound n t
    → IsSound (n + 1) (record t {
      next_sub_id = next;
      channels = make_chan next t.cfg.queue.subscriber_buffer t.channels;
      subscribers = t.subscribers ++ next ∷ [];
    })
subscribe_open-IsSound n t next e running s =
    let absent : Absent next t.subscribers =
      rw e (fresh-Absent t.next_sub_id t.subscribers s.below) in
    record {
      sized = s.sized;
      bounded = s.bounded;
      counted = omega (arith, s.counted);
      below =
          All-append (λ i. i ≤ next) t.subscribers (next ∷ [])
            (rw e (below_mono t.next_sub_id t.subscribers s.below)) (omega arith);
      distinct = IsDistinct-append t.subscribers next absent s.distinct;
      opened =
          All-append
            (λ i. is_open (make_chan next t.cfg.queue.subscriber_buffer t.channels) i ≡ true)
            t.subscribers (next ∷ [])
            (AllOpen-make_chan next t.cfg.queue.subscriber_buffer t.channels t.subscribers s.opened)
            (
              is_open-make_chan next next t.cfg.queue.subscriber_buffer t.channels
                  ∙ ground (arith, ==_iff next next),
              tt,
            );
      fits = make_chan-Fits next t.cfg.queue.subscriber_buffer t.channels s.sized s.fits;
      calm = make_chan-panicked next t.cfg.queue.subscriber_buffer t.channels ∙ s.calm;
      emptied = λ c. cc;
      keyed = s.keyed;
    }

-- `subscribe`, while the 64-bit counter does not wrap.
pub subscribe-IsSound :
    (n : ℕ) (t : TopicRuntime) → n + 1 < 2 ^ 64 → IsSound n t → IsSound (n + 1) (subscribe t).0
unfolding subscribe
subscribe-IsSound n t h s =
    let e : (t.next_sub_id + 1) % 2 ^ 64 ≡ t.next_sub_id + 1 = omega (arith, s.counted) in
    if_cases (λ (r : TopicRuntime × Subscription). IsSound (n + 1) r.0) t.closed _ _
      (λ c. subscribe_closed-IsSound n t ((t.next_sub_id + 1) % 2 ^ 64) e (s.emptied c) s)
      (λ c. subscribe_open-IsSound n t ((t.next_sub_id + 1) % 2 ^ 64) e c s)

-- `close`
pub close-IsSound : (n : ℕ) (t : TopicRuntime) → IsSound n t → IsSound n (close t)
unfolding close
close-IsSound n t s =
    if_cases (IsSound n) t.closed _ _ (λ _. s)
      λ _. record {
        sized = s.sized;
        bounded = s.bounded;
        counted = s.counted;
        below = tt;
        distinct = tt;
        opened = tt;
        fits = close_all-Fits t.subscribers t.channels s.fits;
        calm = close_all-panicked t.subscribers t.channels s.distinct s.opened ∙ s.calm;
        emptied = λ _. refl;
        keyed = s.keyed;
      }

-- `unsubscribe`
pub unsubscribe-IsSound :
    (n : ℕ) (t : TopicRuntime) (id : ℕ) → IsSound n t → IsSound n (unsubscribe t id)
unfolding unsubscribe
unsubscribe-IsSound n t id s =
    if_cases (IsSound n) (any (λ i. i == id) t.subscribers) _ _
      (λ member. record {
        sized = s.sized;
        bounded = s.bounded;
        counted = s.counted;
        below = All-filter (λ i. i ≤ t.next_sub_id) (λ i. not (i == id)) t.subscribers s.below;
        distinct = IsDistinct-filter (λ i. not (i == id)) t.subscribers s.distinct;
        opened =
            AllOpen-close_chan id t.channels (filter (λ i. not (i == id)) t.subscribers)
              (Absent-filter id t.subscribers)
              (All-filter (λ i. is_open t.channels i ≡ true) (λ i. not (i == id)) t.subscribers
                s.opened);
        fits = close_chan-Fits id t.channels s.fits;
        calm =
            close_chan-panicked id t.channels
              (any-is_open id t.channels t.subscribers member s.opened)
            ∙ s.calm;
        emptied = λ c. rw (s.emptied c);
        keyed = s.keyed;
      })
      (λ _. s)

-- `Subscription.Close`
pub close_subscription-IsSound :
    (n : ℕ) (t : TopicRuntime) (sub : Option Subscription)
    → IsSound n t
    → IsSound n (close_subscription t sub).0
unfolding close_subscription
close_subscription-IsSound n t none s = s
close_subscription-IsSound n t (some sub) s =
    if_cases (λ (r : TopicRuntime × Option Subscription × Option Error). IsSound n r.0) sub.closed _
      _ (λ _. s) (λ _. unsubscribe-IsSound n t sub.id s)

-- A receive on a subscription's channel.
pub receive_message-IsSound :
    (n : ℕ) (t : TopicRuntime) (id : ℕ) → IsSound n t → IsSound n (receive_message t id).0
unfolding receive_message
receive_message-IsSound n t id s = record {
  sized = s.sized;
  bounded = s.bounded;
  counted = s.counted;
  below = s.below;
  distinct = s.distinct;
  opened = AllOpen-receive id t.channels t.subscribers s.opened;
  fits = receive-Fits id t.channels s.fits;
  calm = receive-panicked id t.channels ∙ s.calm;
  emptied = s.emptied;
  keyed = s.keyed;
}

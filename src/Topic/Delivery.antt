-- ===== src/Topic/Delivery.antt =====
-- What a submission of topic.go does to the queue, the subscribers and the hooks.
use dmq_lib.Prelude.{
  ℕ, ◌≡◌, refl, ap, ◌∙◌, ◌⊎◌, inl, inr, String, Option, none, some, List, [], ◌∷◌, ◌++◌, any,
  if◌then◌else◌, ◌==◌, ==_iff, nat_eq, bytes_eq, arith, Bool-cases,
}
use dmq_lib.Prelude.Dict.{lookup}
use dmq_lib.Errors.{Error}
use dmq_lib.Time.{Time}
use dmq_lib.Peer.{Peer}
use dmq_lib.Wire.{DmqMessage, Wire}
use dmq_lib.Config.{Message}
use dmq_lib.Topic.{
  TopicRuntime, Outcome, prune_queue_locked, pruned, clone_message, envelope,
  normalize_and_validate_message, submit_signed,
}
use dmq_lib.Topic.Cases.{submit_cases, admit_cases, enqueued, taken}
use dmq_lib.Topic.Quiet.{Quiet, call_rejected-Quiet, call_accepted-Quiet, reject-Quiet, pruned_lem}
use dmq_lib.Topic.Channel.{Channels, send_all, try_send}
use dmq_lib.Topic.Wiring.{on_chan, deliver, IsDistinct, Absent, lookup-try_send}

lookup-send_all-Absent :
    (ids : List ℕ) (m : Message) (cs : Channels) (i j : ℕ)
    → i ≡ j
    → Absent i ids
    → lookup j (send_all ids m cs).chans ≡ lookup j cs.chans
unfolding send_all
lookup-send_all-Absent [] m cs i j e a = refl
lookup-send_all-Absent (id ∷ ids) m cs i j e a =
    lookup-send_all-Absent ids m (try_send id m cs) i j e a.1
    ∙ ground (arith, a.0, lookup-try_send id j m cs)

-- The fan-out reaches each channel of the list once, and no other.
lookup-send_all :
    (ids : List ℕ) (m : Message) (cs : Channels) (j : ℕ)
    → IsDistinct ids
    → lookup j (send_all ids m cs).chans ≡ (
        if any (λ i. i == j) ids
        then on_chan (deliver m) (lookup j cs.chans)
        else lookup j cs.chans)
unfolding send_all
lookup-send_all [] m cs j d = refl
lookup-send_all (id ∷ ids) m cs j d = elim (Bool-cases (id == j)) [
  | inl same ↦ rw same (
      lookup-send_all-Absent ids m (try_send id m cs) id j ((==_iff id j).0 same) d.0
      ∙ ground (arith, same, lookup-try_send id j m cs))
  | inr different ↦ rw different (
      ground (
        arith,
        different,
        lookup-try_send id j m cs,
        lookup-send_all ids m (try_send id m cs) j d.1,
      ))
]

abbrev message_error : Wire → TopicRuntime → DmqMessage → Option Error
message_error w t msg = (normalize_and_validate_message w msg).1

-- What a submission leaves behind, by its error.
pub record Effect (w : Wire) (t : TopicRuntime) (msg : DmqMessage) (source : String)
    (peer : Option Peer) (now : Time) (out : Outcome) : Type 0 where
  accepts :
      out.error ≡ none
      → let m = (normalize_and_validate_message w msg).0 in
        (out.topic.queue ≡ (prune_queue_locked w now t).queue ++ clone_message w m ∷ [])
        × ((j : ℕ)
            → lookup j out.topic.channels.chans ≡ (
                if any (λ i. i == j) t.subscribers
                then on_chan (deliver (envelope w t m source peer now)) (lookup j t.channels.chans)
                else lookup j t.channels.chans))
  refuses :
      (e : Error)
      → out.error ≡ some e
      → ((out.topic.queue ≡ t.queue) ⊎ (out.topic.queue ≡ (prune_queue_locked w now t).queue))
        × (out.topic.channels ≡ t.channels)

module _ (w : Wire) (t : TopicRuntime) (msg : DmqMessage) (source : String) (peer : Option Peer)
    (now : Time) where
  refused-Effect :
      (u : TopicRuntime) (m : DmqMessage) (e : Error)
      → Quiet t u
      → Effect w t msg source peer now (record { topic = u; msg = some m; error = some e })
  refused-Effect u m e q = record {
    accepts = λ h. cc;
    refuses = λ f h.
        (inl (ap (λ (v : TopicRuntime). v.queue) q), ap (λ (v : TopicRuntime). v.channels) q);
  }

  pruned-Effect :
      (u : TopicRuntime) (m : DmqMessage) (e : Error)
      → Quiet (pruned w now t) u
      → Effect w t msg source peer now (record { topic = u; msg = some m; error = some e })
  pruned-Effect u m e q =
      let p = pruned_lem w now t in
      record {
        accepts = λ h. cc;
        refuses = λ f h. (
          inr (ap (λ (v : TopicRuntime). v.queue) q ∙ ap (λ (v : TopicRuntime). v.queue) p),
          ap (λ (v : TopicRuntime). v.channels) q ∙ ap (λ (v : TopicRuntime). v.channels) p,
        );
      }

  taken-Effect :
      IsDistinct t.subscribers
      → Effect w t msg source peer now
          (taken w t source peer now (normalize_and_validate_message w msg).0)
  taken-Effect d =
      let m = (normalize_and_validate_message w msg).0 in
      let env = envelope w t m source peer now in
      let q = call_accepted-Quiet (enqueued w t source peer now m) env in
      let p = pruned_lem w now t in
      record {
        accepts = λ _. (
          ap (λ (v : TopicRuntime). v.queue) q
              ∙ ap (λ (v : TopicRuntime). v.queue ++ clone_message w m ∷ []) p,
          λ j.
              ap (λ (v : TopicRuntime). lookup j v.channels.chans) q
              ∙ ap (λ (v : TopicRuntime). lookup j (send_all v.subscribers env v.channels).chans) p
              ∙ lookup-send_all t.subscribers env t.channels j d,
        );
        refuses = λ f h. cc;
      }

-- Where the subscribers are distinct, a submission that reports no error has put the message behind the messages that are still valid,
-- and handed its envelope to every subscriber whose buffer has room, once, and to no other channel.
-- One that reports an error has delivered nothing and queued nothing.
pub submit_signed-Effect :
    (w : Wire) (t : TopicRuntime) (msg : DmqMessage) (source : String) (peer : Option Peer)
    (checked now : Time)
    → IsDistinct t.subscribers
    → Effect w t msg source peer now (submit_signed w t (some msg) source peer checked now)
submit_signed-Effect w t msg source peer checked now d =
    let m = (normalize_and_validate_message w msg).0 in
    submit_cases w t source peer now (Effect w t msg source peer now) checked msg
      (λ e _. refused-Effect w t msg source peer now _ m e (reject-Quiet t m e))
      (λ e _ _. refused-Effect w t msg source peer now _ m e (reject-Quiet t m e))
      (λ e _ _ _. refused-Effect w t msg source peer now _ m e (call_rejected-Quiet t m _))
      (λ _ _ _.
        admit_cases w t source peer now (Effect w t msg source peer now) m
          (λ _. refused-Effect w t msg source peer now t m _ refl)
          (λ _ _. pruned-Effect w t msg source peer now _ m _ (call_rejected-Quiet _ m _))
          (λ _ _ _. pruned-Effect w t msg source peer now _ m _ (call_rejected-Quiet _ m _))
          (λ _ _ _. taken-Effect w t msg source peer now d))

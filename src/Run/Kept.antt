-- ===== src/Run/Kept.antt =====
-- No call on a topic changes its name or its configuration, or opens it again.
use dmq_lib.Prelude.{
  ◌≡◌, refl, ap, ◌∙◌, String, true, Option, none, some, List, Bytes, any, ◌==◌, nat_eq, ◌&&◌,
  if_cases, option_cases,
}
use dmq_lib.Errors.{Error, Result, result_cases, is, ledger_peer_snapshot_unsupported}
use dmq_lib.Time.{Time}
use dmq_lib.Peer.{Peer, ledger_peer_snapshot_all}
use dmq_lib.Wire.{DmqMessage, Wire}
use dmq_lib.Config.{message_source_local}
use dmq_lib.Topic.{
  TopicRuntime, Outcome, Subscription, admit, pruned, submit_signed, publish,
  normalize_and_validate_message, subscribe, unsubscribe, close, close_subscription,
  receive_message, message_ids, messages_by_ids, prune_queue_locked, call_error, envelope,
}
use dmq_lib.Topic.Cases.{admit_cases, submit_cases, publish_cases, enqueued}
use dmq_lib.Topic.Quiet.{
  Quiet, call_rejected-Quiet, call_accepted-Quiet, call_error-Quiet, reject-Quiet, pruned_lem,
}
use dmq_lib.Discovery.{refresh, discover_peers}
use dmq_lib.Run.{
  Call, submits, publishes, lists_ids, serves, subscribes, unsubscribes, receives, discovers,
  reports, closes, step,
}

pub record Kept (t u : TopicRuntime) : Type 0 where
  pub name : u.name ≡ t.name
  pub cfg : u.cfg ≡ t.cfg
  pub closed : t.closed ≡ true → u.closed ≡ true

unchanged : (t : TopicRuntime) → Kept t t
unchanged t = record { name = refl; cfg = refl; closed = λ h. h }

Kept-trans : (t u v : TopicRuntime) → Kept t u → Kept u v → Kept t v
Kept-trans t u v a b = record {
  name = b.name ∙ a.name;
  cfg = b.cfg ∙ a.cfg;
  closed = λ h. b.closed (a.closed h);
}

Quiet-Kept : (t u : TopicRuntime) → Quiet t u → Kept t u
Quiet-Kept t u q = record {
  name = ap (λ (v : TopicRuntime). v.name) q;
  cfg = ap (λ (v : TopicRuntime). v.cfg) q;
  closed = λ h. ap (λ (v : TopicRuntime). v.closed) q ∙ h;
}

pruned-Kept : (w : Wire) (now : Time) (t : TopicRuntime) → Kept t (pruned w now t)
pruned-Kept w now t = record {
  name = ap (λ (v : TopicRuntime). v.name) (pruned_lem w now t);
  cfg = ap (λ (v : TopicRuntime). v.cfg) (pruned_lem w now t);
  closed = λ h. ap (λ (v : TopicRuntime). v.closed) (pruned_lem w now t) ∙ h;
}

module _ (w : Wire) (t : TopicRuntime) where
  pruned-Quiet-Kept : (now : Time) (u : TopicRuntime) → Quiet (pruned w now t) u → Kept t u
  pruned-Quiet-Kept now u q =
      Kept-trans t (pruned w now t) u (pruned-Kept w now t) (Quiet-Kept (pruned w now t) u q)

  admit-Kept :
      (m : DmqMessage) (source : String) (peer : Option Peer) (now : Time)
      → Kept t (admit w t m source peer now).topic
  admit-Kept m source peer now =
      let p = pruned-Kept w now t in
      admit_cases w t source peer now (λ o. Kept t o.topic) m (λ _. unchanged t)
        (λ _ _. pruned-Quiet-Kept now _ (call_rejected-Quiet (pruned w now t) m _))
        (λ _ _ _. pruned-Quiet-Kept now _ (call_rejected-Quiet (pruned w now t) m _))
        (λ _ _ _.
          Kept-trans t (enqueued w t source peer now m) _
            (record { name = p.name; cfg = p.cfg; closed = p.closed })
            (Quiet-Kept (enqueued w t source peer now m) _ (
              call_accepted-Quiet (enqueued w t source peer now m)
                (envelope w t m source peer now))))

  submit_signed-Kept :
      (msg : Option DmqMessage) (source : String) (peer : Option Peer) (checked now : Time)
      → Kept t (submit_signed w t msg source peer checked now).topic
  submit_signed-Kept none source peer checked now = unfold submit_signed in unchanged t
  submit_signed-Kept (some msg) source peer checked now =
      let m = (normalize_and_validate_message w msg).0 in
      submit_cases w t source peer now (λ o. Kept t o.topic) checked msg
        (λ e _. Quiet-Kept t _ (reject-Quiet t m e)) (λ e _ _. Quiet-Kept t _ (reject-Quiet t m e))
        (λ e _ _ _. Quiet-Kept t _ (call_rejected-Quiet t m _))
        (λ _ _ _. admit-Kept m source peer now)

  publish-Kept :
      (body : Bytes) (signed checked now : Time)
      → Kept t (publish w t body signed checked now).topic
  publish-Kept body signed checked now =
      publish_cases w t body signed checked now (λ o. Kept t o.topic) (λ _. unchanged t)
        (λ _ _. unchanged t) (λ _ _ _ _ _. unchanged t)
        (λ _ _ msg _ _ _.
          let o = submit_signed w t msg message_source_local none checked now in
          let s = submit_signed-Kept msg message_source_local none checked now in
          option_cases (λ (r : Outcome). Kept t r.topic) o.error _ _ (λ _. s) (λ _ _. s))

module _ (t : TopicRuntime) where
  subscribe-Kept : Kept t (subscribe t).0
  unfolding subscribe
  subscribe-Kept =
      if_cases (λ (x : TopicRuntime × Subscription). Kept t x.0) t.closed _ _
        (λ _. record { name = refl; cfg = refl; closed = λ h. h })
        (λ _. record { name = refl; cfg = refl; closed = λ h. h })

  close-Kept : Kept t (close t)
  unfolding close
  close-Kept =
      if_cases (Kept t) t.closed _ _ (λ _. unchanged t)
        (λ _. record { name = refl; cfg = refl; closed = λ _. refl })

  close_subscription-Kept : (sub : Option Subscription) → Kept t (close_subscription t sub).0
  unfolding close_subscription unsubscribe
  close_subscription-Kept none = unchanged t
  close_subscription-Kept (some sub) =
      if_cases (λ (x : TopicRuntime × Option Subscription × Option Error). Kept t x.0) sub.closed _
        _ (λ _. unchanged t)
        (λ _.
          if_cases (Kept t) (any (λ i. i == sub.id) t.subscribers) _ _
            (λ _. record { name = refl; cfg = refl; closed = λ h. h }) (λ _. unchanged t))

  discover_peers-Kept : (ip_string : Bytes → String) → Kept t (discover_peers ip_string t).0
  unfolding discover_peers refresh
  discover_peers-Kept ip_string =
      let P : TopicRuntime × Result (List Peer) → Type 0 = λ x. Kept t x.0 in
      let cfg = t.cfg.discovery.ledger_peers in
      if_cases P cfg.enabled _ _
        (λ _.
          option_cases P cfg.provider _ _
            (λ _. if_cases P cfg.allow_unsupported _ _ (λ _. unchanged t) (λ _. unchanged t))
            (λ provider _.
              result_cases P (provider ledger_peer_snapshot_all) _ _
                (λ e _.
                  if_cases P (cfg.allow_unsupported && is e ledger_peer_snapshot_unsupported) _ _
                    (λ _. unchanged t) (λ _. unchanged t))
                (λ snapshot _. record { name = refl; cfg = refl; closed = λ h. h })))
        (λ _. unchanged t)

pub step-Kept :
    (w : Wire) (ip_string : Bytes → String) (t : TopicRuntime) (c : Call)
    → Kept t (step w ip_string t c)
unfolding step message_ids messages_by_ids receive_message prune_queue_locked
step-Kept w ip_string t (submits m source peer checked now) =
    submit_signed-Kept w t m source peer checked now
step-Kept w ip_string t (publishes body signed checked now) =
    publish-Kept w t body signed checked now
step-Kept w ip_string t (lists_ids max now) = record { name = refl; cfg = refl; closed = λ h. h }
step-Kept w ip_string t (serves wanted now) = record { name = refl; cfg = refl; closed = λ h. h }
step-Kept w ip_string t subscribes = subscribe-Kept t
step-Kept w ip_string t (unsubscribes sub) = close_subscription-Kept t sub
step-Kept w ip_string t (receives id) = record { name = refl; cfg = refl; closed = λ h. h }
step-Kept w ip_string t discovers = discover_peers-Kept t ip_string
step-Kept w ip_string t (reports e) = Quiet-Kept t (call_error t e) (call_error-Quiet t e)
step-Kept w ip_string t closes = close-Kept t

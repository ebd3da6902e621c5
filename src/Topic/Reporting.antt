-- ===== src/Topic/Reporting.antt =====
-- What the hooks of topic.go are told of a submission.
use mathlib.Core.Path.{subst}
use dmq_lib.Prelude.{
  ◌≡◌, refl, ap, Bool, ◌&&◌, not, if◌then◌else◌, String, true, false, Option, none, some, [], ◌∷◌,
  ◌++◌, bytes_eq, arith, option_cases,
}
use dmq_lib.Errors.{
  Error, sentinel, queue_full, RejectReason, invalid, already_received, other,
  reject_reason_from_error,
}
use dmq_lib.Time.{Time}
use dmq_lib.Peer.{Peer}
use dmq_lib.Wire.{DmqMessage, Wire}
use dmq_lib.Config.{Message}
use dmq_lib.Topic.{
  TopicRuntime, Outcome, accepted, rejected, call_rejected, call_accepted, reject, pruned, envelope,
  normalize_and_validate_message, authenticate, submit_signed, is_nil, validate_message_ttl,
}
use dmq_lib.Topic.Cases.{submit_cases, admit_cases, enqueued}
use dmq_lib.Topic.Quiet.{pruned_lem}
use dmq_lib.Topic.Admission.{in_time, verdict, in_time_lem, refused_lem}

same_error : (e f : Error) → some e ≡ some f → e ≡ f
same_error e f x = cc

reason_given : (e : Error) → ¬ (reject_reason_from_error (some e) ≡ none)
unfolding reject_reason_from_error
reason_given e h = ground (arith, h)

module _ (w : Wire) (t : TopicRuntime) (msg : DmqMessage) (source : String) (peer : Option Peer)
    (checked now : Time) where
  abbrev normal : DmqMessage
  normal = (normalize_and_validate_message w msg).0

  -- The message is well-formed and in time, and the authenticator, which is asked, objects to it.
  abbrev pub is_unauthentic : Bool
  is_unauthentic =
      is_nil (normalize_and_validate_message w msg).1
      && in_time w t.cfg.ttl checked normal
      && (t.cfg.authentication.required
          && not (is_nil (verdict w t.cfg.authentication.authenticator normal)))

  -- The reason for an error: that it is invalid where the authenticator objects, and else its own.
  abbrev pub reason_for : Error → Option RejectReason
  reason_for e = if is_unauthentic then some (invalid e) else reject_reason_from_error (some e)

  abbrev pub IsReason : Error → RejectReason → Type 0
  IsReason e r = reason_for e ≡ some r

  is_unauthentic_lem :
      (formed ttl auth : Option Error)
      → (normalize_and_validate_message w msg).1 ≡ formed
      → validate_message_ttl w normal checked t.cfg.ttl ≡ ttl
      → authenticate w t.cfg.authentication normal ≡ auth
      → is_unauthentic ≡ (is_nil formed && is_nil ttl && not (is_nil auth))
  is_unauthentic_lem formed ttl auth f l a =
      rw
        (
          ← f,
          ← l,
          ← a,
          in_time_lem w t.cfg.ttl checked normal,
          refused_lem w t.cfg.authentication normal,
        )
        refl

  -- The hooks' log after a submission, by its error.
  pub record Reported (out : Outcome) : Type 0 where
    pub told_accepted :
        out.error ≡ none
        → out.topic.events ≡ t.events ++ accepted (envelope w t normal source peer now) ∷ []
    pub told_rejected :
        (e : Error)
        → out.error ≡ some e
        → t.closed ≡ false
        → (r : RejectReason) × ((out.topic.events ≡ t.events ++ rejected normal r ∷ [])
            × IsReason e r)

  call_rejected-events :
      (u : TopicRuntime) (r : RejectReason)
      → u.cfg ≡ t.cfg
      → u.events ≡ t.events
      → t.cfg.hooks.on_message_rejected ≡ true
      → (call_rejected u normal r).events ≡ t.events ++ rejected normal r ∷ []
  unfolding call_rejected
  call_rejected-events u r c e h = rw (c, h, e) refl

  refused-Reported :
      (u : TopicRuntime) (r : RejectReason) (e : Error)
      → u.cfg ≡ t.cfg
      → u.events ≡ t.events
      → t.cfg.hooks.on_message_rejected ≡ true
      → IsReason e r
      → Reported (record { topic = call_rejected u normal r; msg = some normal; error = some e })
  refused-Reported u r e c v h i = record {
    told_accepted = λ x. cc;
    told_rejected = λ f x _.
        (r, (call_rejected-events u r c v h, subst (λ g. IsReason g r) (same_error e f x) i));
  }

  reject-Reported :
      (e : Error)
      → is_unauthentic ≡ false
      → t.cfg.hooks.on_message_rejected ≡ true
      → Reported (record { topic = reject t normal e; msg = some normal; error = some e })
  unfolding reject
  reject-Reported e own h =
      option_cases
        (λ (u : TopicRuntime). Reported (record { topic = u; msg = some normal; error = some e }))
        (reject_reason_from_error (some e)) _ _ (λ n. absurd (reason_given e n))
        (λ r i. refused-Reported t r e refl refl h (rw own i))

  call_accepted-events :
      (u : TopicRuntime) (env : Message)
      → u.cfg ≡ t.cfg
      → u.events ≡ t.events
      → t.cfg.hooks.on_message_accepted ≡ true
      → (call_accepted u env).events ≡ t.events ++ accepted env ∷ []
  unfolding call_accepted
  call_accepted-events u env c e h = rw (c, h, e) refl

  taken-Reported :
      t.cfg.hooks.on_message_accepted ≡ true
      → Reported (record {
        topic =
            call_accepted
              (enqueued w t source peer now normal)
              (envelope w t normal source peer now);
        msg = some normal;
        error = none;
      })
  taken-Reported h = record {
    told_accepted = λ _.
        call_accepted-events (enqueued w t source peer now normal)
          (envelope w t normal source peer now)
          (ap (λ (v : TopicRuntime). v.cfg) (pruned_lem w now t))
          (ap (λ (v : TopicRuntime). v.events) (pruned_lem w now t)) h;
    told_rejected = λ e x _. cc;
  }

  closed-Reported :
      t.closed ≡ true
      → (e : Error) → Reported (record { topic = t; msg = some normal; error = some e })
  closed-Reported c e = record { told_accepted = λ x. cc; told_rejected = λ f x o. cc (c, o) }

-- Where the hooks are set, a submission that reports no error has called `OnMessageAccepted` once, with
-- the envelope that the subscribers get; and one that reports an error, on a topic that is not closed,
-- has called `OnMessageRejected` once: as invalid where the message is well-formed and in time and the
-- authenticator objects to it, and else with the reason of that error. No other hook is called.
pub submit_signed-Reported :
    (w : Wire) (t : TopicRuntime) (msg : DmqMessage) (source : String) (peer : Option Peer)
    (checked now : Time)
    → t.cfg.hooks.on_message_accepted ≡ true
    → t.cfg.hooks.on_message_rejected ≡ true
    → Reported w t msg source peer checked now
        (submit_signed w t (some msg) source peer checked now)
submit_signed-Reported w t msg source peer checked now accepts h =
    let P = Reported w t msg source peer checked now in
    let p = pruned_lem w now t in
    let kept = ap (λ (v : TopicRuntime). v.cfg) p in
    let told = ap (λ (v : TopicRuntime). v.events) p in
    let lem = is_unauthentic_lem w t msg source peer checked now in
    let m = (normalize_and_validate_message w msg).0 in
    submit_cases w t source peer now P checked msg
      (λ e f. reject-Reported w t msg source peer checked now e (lem _ _ _ f refl refl) h)
      (λ e f l. reject-Reported w t msg source peer checked now e (lem _ _ _ f l refl) h)
      (λ e f l a.
        refused-Reported w t msg source peer checked now t (invalid e) e refl refl h
          (rw (lem _ _ _ f l a) refl))
      (λ f l a.
        let own : is_unauthentic w t msg source peer checked now ≡ false = lem _ _ _ f l a in
        admit_cases w t source peer now P m
          (λ c. closed-Reported w t msg source peer checked now c _)
          (λ _ _.
            refused-Reported w t msg source peer checked now (pruned w now t) already_received _
              kept told h (rw own (unfold reject_reason_from_error in refl)))
          (λ _ _ _.
            refused-Reported w t msg source peer checked now (pruned w now t)
              (other (sentinel queue_full)) _ kept told h
              (rw own (unfold reject_reason_from_error in refl)))
          (λ _ _ _. taken-Reported w t msg source peer checked now accepts))

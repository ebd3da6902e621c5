-- ===== src/Topic/Admission.antt =====
-- What topic.go accepts, by what it asks of a message.
use dmq_lib.Topic.Admissible.{IsIdentified, IsAdmissible-iff}
use dmq_lib.Prelude.{
  ◌≡◌, sym, ◌∙◌, ◌↔◌, ◌⊎◌, inl, inr, refl, String, true, false, Option, none, some, length,
  bytes_eq, Bytes, arith, Bool, List, [], ◌∷◌, ◌||◌, ◌&&◌, not, if◌then◌else◌, filter, Option-cases,
  Bool-cases,
}
use dmq_lib.Prelude.Dict.{Dict, has, retain}
use dmq_lib.Prelude.Int.{pos, ltb_ℤ}
use dmq_lib.Errors.{Error}
use dmq_lib.Time.{Time, is_nonpositive, time_sub}
use dmq_lib.Peer.{Peer}
use dmq_lib.Wire.{DmqMessage, Wire, IsWire, Authenticator}
use dmq_lib.Config.{TtlPolicy, AuthenticationConfig}
use dmq_lib.Topic.{
  TopicRuntime, is_nil, prune_queue_locked, prune_seen_locked, wrap_ttl_validation_error, pruned,
  submit_signed, validate_message_ttl, authenticate,
}

module _ (w : Wire) where
  -- The lifetime is not checked, or the validator has no objection.
  abbrev pub in_time : TtlPolicy → Time → DmqMessage → Bool
  in_time policy now m = policy.disable || is_nil (w.validate_message_ttl_at policy.max_ttl m now)

  -- What the authenticator says of the message, a nil one included.
  abbrev pub verdict : Option Authenticator → DmqMessage → Option Error
  verdict none m = w.verify_nil m
  verdict (some verify) m = verify m

  -- The remembered IDs: all of them without a window, and those within it otherwise.
  abbrev pub remembered : TopicRuntime → Time → Dict Bytes Time
  remembered t now =
      let window = t.cfg.queue.duplicate_ttl in
      if is_nonpositive window
      then t.seen
      else retain (λ _ at. not (ltb_ℤ window (time_sub now at))) t.seen

  -- What the topic asks of a message with the ID.
  abbrev pub IsWelcome : TopicRuntime → DmqMessage → Time → Time → Bytes → Type 0
  IsWelcome t msg checked now i =
      IsIdentified w msg i
      × (in_time t.cfg.ttl checked msg ≡ true)
      × ((t.cfg.authentication.required ≡ false)
          ⊎ (verdict t.cfg.authentication.authenticator (w.set_message_id msg i) ≡ none))
      × (t.closed ≡ false)
      × (has i (remembered t now) ≡ false)
      × (ltb_ℤ (pos (length (filter (in_time t.cfg.ttl now) t.queue))) t.cfg.queue.max_messages
          ≡ true)

  pub in_time_lem :
      (policy : TtlPolicy) (now : Time) (m : DmqMessage)
      → is_nil (validate_message_ttl w m now policy) ≡ in_time policy now m
  unfolding validate_message_ttl wrap_ttl_validation_error
  in_time_lem policy now m = elim (Option-cases (w.validate_message_ttl_at policy.max_ttl m now)) [
    | inl e ↦ rw e (ground arith)
    | inr (text, e) ↦ rw e (ground arith)
  ]

  nil_iff : (e : Option Error) → (e ≡ none) ↔ (is_nil e ≡ true)
  nil_iff none = (λ _. refl, λ _. refl)
  nil_iff (some e) = (λ h. cc, λ h. cc)

  in_time_queue :
      (policy : TtlPolicy) (now : Time) (ms : List DmqMessage)
      → filter (λ m. is_nil (validate_message_ttl w m now policy)) ms
        ≡ filter (in_time policy now) ms
  in_time_queue policy now [] = refl
  in_time_queue policy now (m ∷ ms) =
      rw (in_time_lem policy now m, in_time_queue policy now ms) refl

  verdict_iff :
      (auth : AuthenticationConfig) (m : DmqMessage)
      → (authenticate w auth m ≡ none)
        ↔ ((auth.required ≡ false) ⊎ (verdict auth.authenticator m ≡ none))
  unfolding authenticate
  verdict_iff auth m = elim (Bool-cases auth.required) [
    | inl e ↦ elim (Option-cases auth.authenticator) [
      | inl n ↦ rw (e, n) (inr, λ x. ground arith)
      | inr (verify, v) ↦ rw (e, v) (inr, λ x. ground arith)
    ]
    | inr e ↦ rw e (λ _. inl refl, λ _. refl)
  ]

  pub refused_lem :
      (auth : AuthenticationConfig) (m : DmqMessage)
      → not (is_nil (authenticate w auth m))
        ≡ (auth.required && not (is_nil (verdict auth.authenticator m)))
  unfolding authenticate
  refused_lem auth m = elim (Option-cases auth.authenticator) [
    | inl n ↦ rw n (ground arith)
    | inr (verify, v) ↦ rw v (ground arith)
  ]

  pruned_parts :
      (t : TopicRuntime) (now : Time)
      → ((pruned w now t).seen ≡ remembered t now)
        × ((pruned w now t).queue ≡ filter (in_time t.cfg.ttl now) t.queue)
        × ((pruned w now t).cfg ≡ t.cfg)
  unfolding prune_queue_locked prune_seen_locked
  pruned_parts t now = elim (Bool-cases (is_nonpositive t.cfg.queue.duplicate_ttl)) [
    | inl e ↦ rw e (refl, in_time_queue t.cfg.ttl now t.queue, refl)
    | inr e ↦ rw e (refl, in_time_queue t.cfg.ttl now t.queue, refl)
  ]

-- A submission reports no error exactly where the body is not too long, the message has the computed
-- ID or none, its lifetime is in order for the validator (or is not checked), authentication is not
-- required or the authenticator has no objection to the message with that ID, the topic is open, the
-- ID is not remembered within the window, and the queue has room for another beside the messages
-- that are still in time.
pub submit_signed_iff :
    (w : Wire)
    → IsWire w
    → (t : TopicRuntime) (msg : DmqMessage) (source : String) (peer : Option Peer)
    → (checked now : Time)
    → ((submit_signed w t (some msg) source peer checked now).error ≡ none)
      ↔ ((i : Bytes) × IsWelcome w t msg checked now i)
submit_signed_iff w law t msg source peer checked now =
    let (seen, queue, cfg) = pruned_parts w t now in
    let same_room : ltb_ℤ (pos (length (pruned w now t).queue))
          (pruned w now t).cfg.queue.max_messages
        ≡ ltb_ℤ (pos (length (filter (in_time w t.cfg.ttl now) t.queue))) t.cfg.queue.max_messages =
      cc (queue, cfg) in
    let accepts = IsAdmissible-iff w law t msg source peer checked now in
    (
      λ h.
          let (i, (identified, timely, authentic, open_topic, new, room)) = accepts.0 h in
          (
            i,
            (
              identified,
              rw (← in_time_lem w t.cfg.ttl checked msg) ((nil_iff w _).0 timely),
              (verdict_iff w t.cfg.authentication (w.set_message_id msg i)).0 authentic,
              open_topic,
              rw (← seen) new,
              sym same_room ∙ room,
            ),
          ),
      λ (i, (identified, timely, authentic, open_topic, new, room)). accepts.1 (
        i,
        (
          identified,
          (nil_iff w _).1 (rw (in_time_lem w t.cfg.ttl checked msg) timely),
          (verdict_iff w t.cfg.authentication (w.set_message_id msg i)).1 authentic,
          open_topic,
          rw seen new,
          same_room ∙ room,
        ),
      ),
    )

-- ===== src/Topic/Admissible.antt =====
-- What topic.go accepts, by the checks of its functions.
use dmq_lib.Prelude.{
  ◌≡◌, ◌↔◌, ◌⊎◌, ◌≤◌, inl, inr, refl, ap, String, true, false, Option, none, some, length, bytes_eq,
  ◌==◌, ==_iff, Bytes, arith, if_cases,
}
use dmq_lib.Prelude.Dict.{has}
use dmq_lib.Prelude.Int.{pos, ltb_ℤ}
use dmq_lib.Errors.{Error, ok, result_cases}
use dmq_lib.Time.{Time}
use dmq_lib.Peer.{Peer}
use dmq_lib.Wire.{DmqMessage, Wire, IsWire}
use dmq_lib.Config.{TtlPolicy}
use dmq_lib.Payload.{max_message_body_bytes, validate_message_body}
use dmq_lib.Topic.{
  TopicRuntime, is_empty, pruned, admit, submit_signed, normalize_and_validate_message,
  validate_message_ttl, authenticate,
}
use dmq_lib.Topic.Cases.{submit_cases, admit_cases}

module _ (w : Wire) where
  -- The message may have the ID: the body is not too long, the ID is the computed one, and the
  -- message has no other.
  abbrev pub IsIdentified : DmqMessage → Bytes → Type 0
  IsIdentified m i =
      (length m.payload.message_body ≤ max_message_body_bytes)
      × (w.compute_dmq_message_id m.payload ≡ ok i)
      × ((is_empty (w.msg_id m) ≡ true) ⊎ (w.msg_id m ≡ i))

  short_body : (b : Bytes) → validate_message_body b ≡ ok _ → length b ≤ max_message_body_bytes
  unfolding validate_message_body
  short_body b h = ground (arith, h)

  -- What a successful normalization says, of its result.
  abbrev Says : DmqMessage → DmqMessage × Option Error → Type 0
  Says m out = out.1 ≡ none → (i : Bytes) × (IsIdentified m i × (out.0 ≡ w.set_message_id m i))

  normalize-IsIdentified : (m : DmqMessage) → Says m (normalize_and_validate_message w m)
  unfolding normalize_and_validate_message
  normalize-IsIdentified m =
      result_cases (Says m) (validate_message_body m.payload.message_body) _ _ (λ e _ h. cc)
        λ u short.
          result_cases (Says m) (w.compute_dmq_message_id m.payload) _ _ (λ e _ h. cc)
            λ i c.
              if_cases (Says m) (is_empty (w.msg_id m)) _ _
                (λ e _. (i, ((short_body _ short, c, inl e), refl)))
                λ _.
                  if_cases (Says m) (w.msg_id m == i) _ _
                    (λ q _. (
                      w.msg_id m,
                      ((short_body _ short, cc (c, (==_iff (w.msg_id m) i).0 q), inr refl), refl),
                    ))
                    (λ _ h. cc)

  normalized :
      (m : DmqMessage) (i : Bytes)
      → IsIdentified m i
      → normalize_and_validate_message w m ≡ (w.set_message_id m i, none)
  unfolding normalize_and_validate_message validate_message_body
  normalized m i (short, computed, given) =
      ground (arith, ==_iff (w.msg_id m) i, given, computed, short)

  validate_message_ttl-set :
      IsWire w
      → (m : DmqMessage) (i : Bytes) (now : Time) (policy : TtlPolicy)
      → validate_message_ttl w (w.set_message_id m i) now policy
        ≡ validate_message_ttl w m now policy
  unfolding validate_message_ttl
  validate_message_ttl-set law m i now policy = rw (law.ttl_set policy.max_ttl m i now) refl

  -- What lets a message with the ID enter the topic: it is in time, authentic, not remembered, and
  -- the open topic has room, once what has expired is dropped.
  abbrev pub IsAdmissible : TopicRuntime → DmqMessage → Time → Time → Bytes → Type 0
  IsAdmissible t msg checked now i =
      IsIdentified msg i
      × (validate_message_ttl w msg checked t.cfg.ttl ≡ none)
      × (authenticate w t.cfg.authentication (w.set_message_id msg i) ≡ none)
      × (t.closed ≡ false)
      × (has i (pruned w now t).seen ≡ false)
      × (ltb_ℤ (pos (length (pruned w now t).queue)) (pruned w now t).cfg.queue.max_messages ≡ true)

  admit_iff :
      (t : TopicRuntime) (m : DmqMessage) (source : String) (peer : Option Peer) (now : Time)
      → ((admit w t m source peer now).error ≡ none) ↔ (
          (t.closed ≡ false)
          × (has (w.msg_id m) (pruned w now t).seen ≡ false)
          × (ltb_ℤ (pos (length (pruned w now t).queue)) (pruned w now t).cfg.queue.max_messages
              ≡ true))
  admit_iff t m source peer now =
      admit_cases w t source peer now
        (λ out. (out.error ≡ none) ↔ (
          (t.closed ≡ false)
          × (has (w.msg_id m) (pruned w now t).seen ≡ false)
          × (ltb_ℤ (pos (length (pruned w now t).queue)) (pruned w now t).cfg.queue.max_messages
              ≡ true)))
        m (λ c. (λ h. cc, λ x. cc (c, x.0))) (λ _ d. (λ h. cc, λ x. cc (d, x.1)))
        (λ _ _ f. (λ h. cc, λ x. cc (f, x.2))) (λ c d r. ((λ _. (c, d, r)), λ _. refl))

  submit_signed-IsAdmissible :
      IsWire w
      → (t : TopicRuntime) (msg : DmqMessage) (source : String) (peer : Option Peer)
      → (checked now : Time) → (submit_signed w t (some msg) source peer checked now).error ≡ none
      → (i : Bytes) × IsAdmissible t msg checked now i
  submit_signed-IsAdmissible law t msg source peer checked now =
      submit_cases w t source peer now
        (λ out. out.error ≡ none → (i : Bytes) × IsAdmissible t msg checked now i) checked msg
        (λ e _ h. cc) (λ e _ _ h. cc) (λ e _ _ _ h. cc)
        (λ n l a h.
          let (i, (identified, same)) = normalize-IsIdentified msg n in
          let (open_topic, new, room) =
            (admit_iff t (normalize_and_validate_message w msg).0 source peer now).0 h in
          (
            i,
            (
              identified,
              rw (← validate_message_ttl-set law msg i checked t.cfg.ttl, ← same) l,
              rw (← same) a,
              open_topic,
              rw (← law.id_set msg i, ← same) new,
              room,
            ),
          ))

  IsAdmissible-accepted :
      IsWire w
      → (t : TopicRuntime) (msg : DmqMessage) (source : String) (peer : Option Peer)
      → (checked now : Time) (i : Bytes) → IsAdmissible t msg checked now i
      → (submit_signed w t (some msg) source peer checked now).error ≡ none
  IsAdmissible-accepted law t msg source peer checked now i
        (identified, timely, authentic, open_topic, new, room) =
      let normal = normalized msg i identified in
      let same = ap (λ (p : DmqMessage × Option Error). p.0) normal in
      submit_cases w t source peer now (λ out. out.error ≡ none) checked msg
        (λ e n. cc (n, ap (λ (p : DmqMessage × Option Error). p.1) normal))
        (λ e _ l. cc (l, same, timely, validate_message_ttl-set law msg i checked t.cfg.ttl))
        (λ e _ _ a. cc (a, same, authentic))
        (λ _ _ _.
          (admit_iff t (normalize_and_validate_message w msg).0 source peer now).1
            (open_topic, rw (same, law.id_set msg i) new, room))

pub IsAdmissible-iff :
    (w : Wire)
    → IsWire w
    → (t : TopicRuntime) (msg : DmqMessage) (source : String) (peer : Option Peer)
    → (checked now : Time)
    → ((submit_signed w t (some msg) source peer checked now).error ≡ none)
      ↔ ((i : Bytes) × IsAdmissible w t msg checked now i)
IsAdmissible-iff w law t msg source peer checked now = (
  submit_signed-IsAdmissible w law t msg source peer checked now,
  λ (i, x). IsAdmissible-accepted w law t msg source peer checked now i x,
)

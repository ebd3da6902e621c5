-- ===== src/Topic/Cases.antt =====
-- The ways that a submission of topic.go can go, for the proofs about it.
use dmq_lib.Prelude.{
  ◌≡◌, ◌++◌, ◌∷◌, [], String, true, false, Option, none, some, length, bytes_eq, Bytes, if_cases,
  option_cases,
}
use dmq_lib.Prelude.Dict.{has, insert}
use dmq_lib.Prelude.Int.{pos, ltb_ℤ}
use dmq_lib.Errors.{
  Error, sentinel, manager_closed, duplicate_message, queue_full, invalid, already_received, other,
  signer_required, ok, err, result_cases,
}
use dmq_lib.Time.{Time}
use dmq_lib.Peer.{Peer}
use dmq_lib.Wire.{DmqMessage, DmqMessagePayload, Wire}
use dmq_lib.Config.{Signer, message_source_local}
use dmq_lib.Payload.{new_message_payload}
use dmq_lib.Topic.{
  TopicRuntime, Outcome, call_rejected, call_accepted, reject, pruned, admit, submit_signed,
  publish, returned, envelope, clone_message, normalize_and_validate_message, validate_message_ttl,
  authenticate,
}
use dmq_lib.Topic.Channel.{send_all}

module _ (w : Wire) (t : TopicRuntime) (source : String) (peer : Option Peer) (now : Time) where
  -- The topic with the message in its queue, before the hook is called.
  abbrev pub enqueued : DmqMessage → TopicRuntime
  enqueued m =
      let u = pruned w now t in
      record u {
        seen = insert (w.msg_id m) now u.seen;
        queue = u.queue ++ clone_message w m ∷ [];
        channels = send_all u.subscribers (envelope w t m source peer now) u.channels;
      }

  abbrev pub refused : TopicRuntime → DmqMessage → Error → Outcome
  refused u m e = record { topic = u; msg = some m; error = some e }

  abbrev pub taken : DmqMessage → Outcome
  taken m = record {
    topic = call_accepted (enqueued m) (envelope w t m source peer now);
    msg = some m;
    error = none;
  }

  pub admit_cases {ℓ} :
      (P : Outcome → Type ℓ) (m : DmqMessage)
      → (t.closed ≡ true → P (refused t m (sentinel manager_closed)))
      → (t.closed ≡ false
          → has (w.msg_id m) (pruned w now t).seen ≡ true
          → P (
              refused
                (call_rejected (pruned w now t) m already_received)
                m
                (sentinel duplicate_message)))
      → (t.closed ≡ false
          → has (w.msg_id m) (pruned w now t).seen ≡ false
          → ltb_ℤ (pos (length (pruned w now t).queue)) (pruned w now t).cfg.queue.max_messages
            ≡ false
          → P (
              refused
                (call_rejected (pruned w now t) m (other (sentinel queue_full)))
                m
                (sentinel queue_full)))
      → (t.closed ≡ false
          → has (w.msg_id m) (pruned w now t).seen ≡ false
          → ltb_ℤ (pos (length (pruned w now t).queue)) (pruned w now t).cfg.queue.max_messages
            ≡ true
          → P (taken m))
      → P (admit w t m source peer now)
  unfolding admit
  admit_cases P m closed duplicate full room = if_cases P t.closed _ _ closed λ c.
      if_cases P (has (w.msg_id m) (pruned w now t).seen) _ _ (duplicate c) λ d.
        if_cases P
          (ltb_ℤ (pos (length (pruned w now t).queue)) (pruned w now t).cfg.queue.max_messages) _ _
          (room c d) (full c d)

  pub submit_cases {ℓ} :
      (P : Outcome → Type ℓ) (checked : Time) (msg : DmqMessage)
      → ((e : Error)
          → (normalize_and_validate_message w msg).1 ≡ some e
          → P (
              refused
                (reject t (normalize_and_validate_message w msg).0 e)
                (normalize_and_validate_message w msg).0
                e))
      → ((e : Error)
          → (normalize_and_validate_message w msg).1 ≡ none
          → validate_message_ttl w (normalize_and_validate_message w msg).0 checked t.cfg.ttl
            ≡ some e
          → P (
              refused
                (reject t (normalize_and_validate_message w msg).0 e)
                (normalize_and_validate_message w msg).0
                e))
      → ((e : Error)
          → (normalize_and_validate_message w msg).1 ≡ none
          → validate_message_ttl w (normalize_and_validate_message w msg).0 checked t.cfg.ttl ≡ none
          → authenticate w t.cfg.authentication (normalize_and_validate_message w msg).0 ≡ some e
          → P (
              refused
                (call_rejected t (normalize_and_validate_message w msg).0 (invalid e))
                (normalize_and_validate_message w msg).0
                e))
      → ((normalize_and_validate_message w msg).1 ≡ none
          → validate_message_ttl w (normalize_and_validate_message w msg).0 checked t.cfg.ttl ≡ none
          → authenticate w t.cfg.authentication (normalize_and_validate_message w msg).0 ≡ none
          → P (admit w t (normalize_and_validate_message w msg).0 source peer now))
      → P (submit_signed w t (some msg) source peer checked now)
  unfolding submit_signed
  submit_cases P checked msg bad late forged good =
      let m = (normalize_and_validate_message w msg).0 in
      option_cases P (normalize_and_validate_message w msg).1 _ _
        (λ i.
          option_cases P (validate_message_ttl w m checked t.cfg.ttl) _ _
            (λ l.
              option_cases P (authenticate w t.cfg.authentication m) _ _ (good i l)
                (λ e f. forged e i l f))
            (λ e l. late e i l))
        bad

module _ (w : Wire) (t : TopicRuntime) (body : Bytes) (signed checked now : Time) where
  abbrev pub unpublished : Error → Outcome
  unpublished e = record { topic = t; msg = none; error = some e }

  pub publish_cases {ℓ} :
      (P : Outcome → Type ℓ)
      → (t.cfg.signer ≡ none → P (unpublished (sentinel signer_required)))
      → ((e : Error)
          → new_message_payload signed t.cfg.ttl.default_ttl body ≡ err e
          → P (unpublished e))
      → ((sign : Signer) (p : DmqMessagePayload) (e : Error)
          → t.cfg.signer ≡ some sign
          → sign t.name p ≡ err e
          → P (unpublished e))
      → ((sign : Signer) (p : DmqMessagePayload) (msg : Option DmqMessage)
          → t.cfg.signer ≡ some sign
          → new_message_payload signed t.cfg.ttl.default_ttl body ≡ ok p
          → sign t.name p ≡ ok msg
          → P (returned w (submit_signed w t msg message_source_local none checked now)))
      → P (publish w t body signed checked now)
  unfolding publish
  publish_cases P unset bad failed good = option_cases P t.cfg.signer _ _ unset λ sign s.
      result_cases P (new_message_payload signed t.cfg.ttl.default_ttl body) _ _ (λ e h. bad e h)
        λ p h.
          result_cases P (sign t.name p) _ _ (λ e f. failed sign p e s f)
            (λ msg g. good sign p msg s h g)

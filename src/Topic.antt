-- ===== src/Topic.antt =====
-- topic.go: the runtime of one topic. Each method holds the topic's lock where it reads or writes
-- the queue, the map of seen IDs and the subscribers, so it is one step on the state; what it reads
-- of the clock is an argument. A subscription's channel outlives its entry in the map of
-- subscribers, so the channels stand beside it, by the subscription's number.
pub mod Channel
pub mod Wiring
pub mod Buffers
pub mod Cases
pub mod Invariant
pub mod Subscribers
pub mod Quiet
pub mod Delivery
pub mod Memory
pub mod Admissible
pub mod Admission
pub mod Forgetting
pub mod Reporting
pub mod Listing
use dmq_lib.Prelude.{
  ℕ, suc, ◌+◌, ◌%◌, ◌^◌, String, Bool, true, false, ◌&&◌, not, Option, none, some, List, [], ◌∷◌,
  ◌++◌, length, filter, map, any, if◌then◌else◌, ◌==◌, nat_eq, bytes_eq, Bytes,
}
use dmq_lib.Prelude.Dict.{Dict, lookup, insert, delete, retain, has}
use dmq_lib.Prelude.Int.{ℤ, pos, ltb_ℤ}
use dmq_lib.Errors.{
  Error, sentinel, detailed, joined, context, plain, external, ids, Result, ok, err,
  signer_required, manager_closed, duplicate_message, queue_full, subscription_closed,
  message_expired, message_ttl_too_far, message_id_mismatch, RejectReason, invalid,
  already_received, expired, other, reject_reason_from_error,
}
use dmq_lib.Time.{Time, Duration, is_nonpositive, time_sub}
use dmq_lib.Text.{contains}
use dmq_lib.Peer.{Peer}
use dmq_lib.Wire.{DmqMessage, DmqMessagePayload, MessageIdAndSize, Authenticator, Wire}
use dmq_lib.Payload.{validate_message_body, new_message_payload}
use dmq_lib.Config.{
  Signer, TopicConfig, TtlPolicy, AuthenticationConfig, Message, message_source_local,
}
use dmq_lib.Topology.{topology_peers}
use dmq_lib.Selector.{PeerSelector, PeerSelectionConfig, new_peer_selector, add_peers}
use Channel.{Chan, Channels, make_chan, close_chan, close_all, send_all, receive}

-- A call of a hook.
pub data Event : Type 0 where
  accepted : Message → Event
  rejected : DmqMessage → RejectReason → Event
  peers_discovered : List Peer → Event
  errored : Error → Event

pub record Subscription : Type 0 where
  pub id : ℕ
  pub closed : Bool

-- `subscribers` has the keys of the map; `channels` and `panicked` are in `Channel`.
pub record TopicRuntime : Type 0 where
  pub name : String
  pub cfg : TopicConfig
  pub closed : Bool
  pub queue : List DmqMessage
  pub seen : Dict Bytes Time
  pub subscribers : List ℕ
  pub next_sub_id : ℕ
  pub channels : Channels
  pub peer_selector : PeerSelector
  pub events : List Event

-- `newTopicRuntime`
unfoldable pub new_topic_runtime : String → TopicConfig → TopicRuntime
new_topic_runtime name cfg =
    let selector = new_peer_selector (record {
      topology_quota = cfg.discovery.topology_quota;
      peer_share_quota = cfg.discovery.peer_sharing_quota;
      ledger_quota = cfg.discovery.ledger_peers.target;
      big_ledger_quota = cfg.discovery.ledger_peers.big_ledger_target;
    }) in
    record {
      name = name;
      cfg = cfg;
      closed = false;
      queue = [];
      seen = [];
      subscribers = [];
      next_sub_id = 0;
      channels = record { chans = []; panicked = false };
      peer_selector =
          add_peers (add_peers selector (topology_peers cfg.discovery.topology))
            cfg.discovery.static_peers;
      events = [];
    }

-- The hooks; each is called where it is set.
pub call_rejected : TopicRuntime → DmqMessage → RejectReason → TopicRuntime
call_rejected t m reason =
    if t.cfg.hooks.on_message_rejected
    then record t { events = t.events ++ rejected m reason ∷ [] }
    else t

pub call_accepted : TopicRuntime → Message → TopicRuntime
call_accepted t envelope =
    if t.cfg.hooks.on_message_accepted
    then record t { events = t.events ++ accepted envelope ∷ [] }
    else t

pub call_error : TopicRuntime → Error → TopicRuntime
call_error t e =
    if t.cfg.hooks.on_error then record t { events = t.events ++ errored e ∷ [] } else t

-- t.callRejected(ctx, msg, rejectReasonFromError(err))
pub reject : TopicRuntime → DmqMessage → Error → TopicRuntime
unfolding reject_reason_from_error call_rejected
reject t m e = elim (reject_reason_from_error (some e)) [
  | none ↦ t
  | some reason ↦ call_rejected t m reason
]

-- `wrapTTLValidationError`, on the text of the validator's error.
pub wrap_ttl_validation_error : Option String → Option Error
wrap_ttl_validation_error none = none
wrap_ttl_validation_error (some text) =
    if contains text "has expired"
    then some (joined message_expired (external text))
    else if contains text "too far in future"
    then some (joined message_ttl_too_far (external text))
    else some (external text)

-- len(id) == 0
abbrev pub is_empty {ℓ} : {A : Type ℓ} → List A → Bool
is_empty [] = true
is_empty (x ∷ xs) = false

-- err == nil
abbrev pub is_nil {ℓ} : {A : Type ℓ} → Option A → Bool
is_nil none = true
is_nil (some a) = false

-- What a call with a message leaves behind: the topic, the message (whose ID may have been set),
-- and the error.
pub record Outcome : Type 0 where
  pub topic : TopicRuntime
  pub msg : Option DmqMessage
  pub error : Option Error

module _ (w : Wire) where
  open w use {msg_id, set_message_id, compute_dmq_message_id, validate_message_ttl_at, encode}

  unfoldable pub validate_message_ttl : DmqMessage → Time → TtlPolicy → Option Error
  unfolding wrap_ttl_validation_error
  validate_message_ttl m now policy =
      if policy.disable
      then none
      else wrap_ttl_validation_error (validate_message_ttl_at policy.max_ttl m now)

  unfoldable pub clone_message : DmqMessage → DmqMessage
  clone_message m = set_message_id m (msg_id m)

  unfoldable pub normalize_and_validate_message : DmqMessage → DmqMessage × Option Error
  unfolding validate_message_body
  normalize_and_validate_message m = elim (validate_message_body m.payload.message_body) [
    | err e ↦ (m, some e)
    | ok _ ↦ elim (compute_dmq_message_id m.payload) [
      | err e ↦ (m, some (context "compute message ID" e))
      | ok computed ↦
          if is_empty (msg_id m)
          then (set_message_id m computed, none)
          else if msg_id m == computed
          then (set_message_id m (msg_id m), none)
          else (m, some (detailed message_id_mismatch (ids computed (msg_id m))))
    ]
  ]

  -- t.cfg.Authentication.Required and `auth.VerifyMessage(msg)`.
  unfoldable pub authenticate : AuthenticationConfig → DmqMessage → Option Error
  authenticate auth m =
      if auth.required
      then elim auth.authenticator [ none ↦ w.verify_nil m | some verify ↦ verify m ]
      else none

  unfoldable pub prune_seen_locked : Time → TopicRuntime → TopicRuntime
  prune_seen_locked now t =
      let ttl = t.cfg.queue.duplicate_ttl in
      if is_nonpositive ttl
      then t
      else record t { seen = retain (λ _ at. not (ltb_ℤ ttl (time_sub now at))) t.seen }

  unfoldable pub prune_queue_locked : Time → TopicRuntime → TopicRuntime
  prune_queue_locked now t = record t {
    queue = filter (λ m. is_nil (validate_message_ttl m now t.cfg.ttl)) t.queue;
  }

  abbrev pub pruned : Time → TopicRuntime → TopicRuntime
  pruned now t = prune_queue_locked now (prune_seen_locked now t)

  unfoldable pub envelope : TopicRuntime → DmqMessage → String → Option Peer → Time → Message
  envelope t m source peer now = record {
    topic = t.name;
    message = clone_message m;
    id = msg_id m;
    body = m.payload.message_body;
    source = source;
    peer = peer;
    received_at = now;
  }

  -- `submitSigned` under the lock, once the message is validated.
  unfoldable pub admit : TopicRuntime → DmqMessage → String → Option Peer → Time → Outcome
  admit t m source peer now =
      let env = envelope t m source peer now in
      let key = msg_id m in
      let u = pruned now t in
      if t.closed
      then record { topic = t; msg = some m; error = some (sentinel manager_closed) }
      else if has key u.seen
      then record {
        topic = call_rejected u m already_received;
        msg = some m;
        error = some (sentinel duplicate_message);
      }
      else if ltb_ℤ (pos (length u.queue)) u.cfg.queue.max_messages
      then record {
        topic =
            call_accepted
              (record u {
                seen = insert key now u.seen;
                queue = u.queue ++ clone_message m ∷ [];
                channels = send_all u.subscribers env u.channels;
              })
              env;
        msg = some m;
        error = none;
      }
      else record {
        topic = call_rejected u m (other (sentinel queue_full));
        msg = some m;
        error = some (sentinel queue_full);
      }

  -- `submitSigned`; it reads the clock for the lifetime check and again for the envelope.
  unfoldable pub submit_signed :
      TopicRuntime → Option DmqMessage → String → Option Peer → Time → Time → Outcome
  submit_signed t none source peer checked now = record {
    topic = t;
    msg = none;
    error = some (plain "message is nil");
  }
  submit_signed t (some msg) source peer checked now =
      let (m, invalid_message) = normalize_and_validate_message msg in
      elim invalid_message [
        | some e ↦ record { topic = reject t m e; msg = some m; error = some e }
        | none ↦ elim (validate_message_ttl m checked t.cfg.ttl) [
          | some e ↦ record { topic = reject t m e; msg = some m; error = some e }
          | none ↦ elim (authenticate t.cfg.authentication m) [
            | some e ↦ record {
              topic = call_rejected t m (invalid e);
              msg = some m;
              error = some e;
            }
            | none ↦ admit t m source peer now
          ]
        ]
      ]

  -- if err != nil { return nil, err }; return msg, nil
  abbrev pub returned : Outcome → Outcome
  returned out = elim out.error [ none ↦ out | some e ↦ record out { msg = none } ]

  -- `publish`; the first reading of the clock is for the payload's expiration.
  pub publish : TopicRuntime → Bytes → Time → Time → Time → Outcome
  publish t body signed checked now = elim t.cfg.signer [
    | none ↦ record { topic = t; msg = none; error = some (sentinel signer_required) }
    | some sign ↦ elim (new_message_payload signed t.cfg.ttl.default_ttl body) [
      | err e ↦ record { topic = t; msg = none; error = some e }
      | ok payload ↦ elim (sign t.name payload) [
        | err e ↦ record { topic = t; msg = none; error = some e }
        | ok msg ↦ returned (submit_signed t msg message_source_local none checked now)
      ]
    ]
  ]

  -- The loop of `messageIDs`; `taken` is the number of IDs so far.
  unfoldable pub collect_ids : TtlPolicy → Time → ℤ → ℕ → List DmqMessage → List MessageIdAndSize
  collect_ids policy now max taken [] = []
  collect_ids policy now max taken (m ∷ ms) =
      let skipped = collect_ids policy now max taken ms in
      let rest = collect_ids policy now max (taken + 1) ms in
      elim (validate_message_ttl m now policy) [
        | some e ↦ skipped
        | none ↦ elim (encode m) [
          | err e ↦ skipped
          | ok bytes ↦
              let entry : MessageIdAndSize = record {
                message_id = msg_id m;
                size_in_bytes = length bytes % 2 ^ 32;
              } in
              if ltb_ℤ (pos 0) max && not (ltb_ℤ (pos (taken + 1)) max)
              then entry ∷ []
              else entry ∷ rest
        ]
      ]

  unfoldable pub message_ids : TopicRuntime → ℤ → Time → TopicRuntime × List MessageIdAndSize
  message_ids t max now =
      let u = prune_queue_locked now t in (u, collect_ids u.cfg.ttl now max 0 u.queue)

  unfoldable pub messages_by_ids : TopicRuntime → List Bytes → Time → TopicRuntime × List DmqMessage
  messages_by_ids t wanted now =
      let u = prune_queue_locked now t in
      let served =
        filter
          (λ m. any (λ i. i == msg_id m) wanted && is_nil (validate_message_ttl m now u.cfg.ttl))
          u.queue in
      (u, map clone_message served)

unfoldable pub has_seen : TopicRuntime → Bytes → Bool
has_seen t id = has id t.seen

-- `subscribe`; the counter is a 64-bit word.
unfoldable pub subscribe : TopicRuntime → TopicRuntime × Subscription
subscribe t =
    let id = (t.next_sub_id + 1) % 2 ^ 64 in
    let cs = make_chan id t.cfg.queue.subscriber_buffer t.channels in
    if t.closed
    then (
      record t { next_sub_id = id; channels = close_chan id cs },
      record { id = id; closed = true },
    )
    else (
      record t { next_sub_id = id; channels = cs; subscribers = t.subscribers ++ id ∷ [] },
      record { id = id; closed = false },
    )

unfoldable pub close : TopicRuntime → TopicRuntime
close t =
    if t.closed
    then t
    else record t { closed = true; channels = close_all t.subscribers t.channels; subscribers = [] }

unfoldable pub unsubscribe : TopicRuntime → ℕ → TopicRuntime
unsubscribe t id =
    if any (λ i. i == id) t.subscribers
    then record t {
      subscribers = filter (λ i. not (i == id)) t.subscribers;
      channels = close_chan id t.channels;
    }
    else t

-- `Subscription.Close`; `none` is a nil subscription.
unfoldable pub close_subscription :
    TopicRuntime → Option Subscription → TopicRuntime × Option Subscription × Option Error
close_subscription t none = (t, none, none)
close_subscription t (some s) =
    if s.closed
    then (t, some s, some (sentinel subscription_closed))
    else (unsubscribe t s.id, some (record s { closed = true }), none)

-- A receive on the subscription's channel.
unfoldable pub receive_message : TopicRuntime → ℕ → TopicRuntime × Option Message
receive_message t id = let (cs, m) = receive id t.channels in (record t { channels = cs }, m)

-- ===== src/Submission/Acknowledging.antt =====
-- The acknowledgements of protocol.go on a connection from which IDs are pulled.
use dmq_lib.Prelude.{ℕ, ◌+◌, ◌^◌, ◌<◌, ◌≡◌, refl, Option, List, [], length, leb, arith, if_cases}
use dmq_lib.Errors.{Error}
use dmq_lib.Time.{Time}
use dmq_lib.Peer.{Peer}
use dmq_lib.Wire.{DmqMessage, MessageIdAndSize, Wire}
use dmq_lib.Topic.{TopicRuntime}
use dmq_lib.Submission.{
  SubmissionFlow, Request, ids_blocking, messages, new_flow, request_ids, wanted_ids,
  on_reply_message_ids, on_reply_messages,
}

-- The pulling side: the flow, the request that waits for its reply, and, counted along, how many IDs
-- the peer has announced and how many were acknowledged.
pub record Pull : Type 0 where
  pub flow : SubmissionFlow
  pub pending : Request
  pub told : ℕ
  pub acked : ℕ

abbrev pub acks : Request → ℕ
acks (ids_blocking ack count) = ack
acks (messages ids) = 0

abbrev pub AsksIds : Request → Type 0
AsksIds (ids_blocking ack count) = Unit
AsksIds (messages ids) = ⊥

abbrev pub asked : Pull → SubmissionFlow → Request → ℕ → Pull
asked p f r more = record { flow = f; pending = r; told = p.told + more; acked = p.acked + acks r }

module _ (w : Wire) (count : ℕ) where
  -- What the protocol allows: a reply with IDs to a request of IDs, of at most 65535, and a reply
  -- with messages to a request of messages.
  pub data Reachable : Pull → Type 0 where
    starts : Reachable (
        asked
          (record { flow = new_flow; pending = messages []; told = 0; acked = 0 })
          (request_ids count new_flow).0
          (request_ids count new_flow).1
          0)
    replies_ids :
        (p : Pull) (send : Request → Option Error) (t : TopicRuntime) (ids : List MessageIdAndSize)
        → Reachable p
        → AsksIds p.pending
        → length ids < 2 ^ 16
        → Reachable (
            asked p
              (on_reply_message_ids send count t p.flow ids).1
              (on_reply_message_ids send count t p.flow ids).2
              (length ids))
    replies_messages :
        (p : Pull) (send : Request → Option Error) (t : TopicRuntime) (peer : Option Peer)
        (ms : List (DmqMessage × Time × Time))
        → Reachable p
        → (AsksIds p.pending → ⊥)
        → Reachable (
            asked p
              (on_reply_messages w send count t p.flow peer ms).1
              (on_reply_messages w send count t p.flow peer ms).2
              0)

  -- Every announced ID is acknowledged, or outstanding.
  record Balanced (p : Pull) : Type 0 where
    balance : p.acked + p.flow.outstanding ≡ p.told
    settled : AsksIds p.pending → p.flow.outstanding ≡ 0

  Reachable-Balanced : (p : Pull) → Reachable p → Balanced p
  unfolding request_ids on_reply_message_ids on_reply_messages
  Reachable-Balanced p starts = record { balance = omega arith; settled = λ _. refl }
  Reachable-Balanced p (replies_ids q send t ids s asks short) =
      let b = Reachable-Balanced q s in
      if_cases
        (λ (r : TopicRuntime × SubmissionFlow × Request). Balanced (asked q r.1 r.2 (length ids)))
        (leb 1 (length (wanted_ids t ids))) _ _
        (λ _. record {
          balance = omega (arith, b.balance, b.settled asks, short);
          settled = λ x. absurd x;
        })
        (λ _. record {
          balance = omega (arith, b.balance, b.settled asks, short);
          settled = λ _. refl;
        })
  Reachable-Balanced p (replies_messages q send t peer ms s asks) =
      let b = Reachable-Balanced q s in
      record { balance = omega (arith, b.balance); settled = λ _. refl }

-- At any point of a pull the acknowledged IDs and the outstanding ones are together all that the
-- peer has announced; and whenever the next request is for IDs, nothing is left outstanding.
pub acked_or_outstanding :
    (w : Wire) (count : ℕ) (p : Pull)
    → Reachable w count p
    → (p.acked + p.flow.outstanding ≡ p.told) × (AsksIds p.pending → p.acked ≡ p.told)
acked_or_outstanding w count p r =
    let b = Reachable-Balanced w count p r in
    (b.balance, λ x. omega (arith, b.balance, b.settled x))

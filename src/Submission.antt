-- ===== src/Submission.antt =====
-- protocol.go: the message-submission flow of a connection. Each handler is one step on the topic and
-- on the flow. What a send on the connection gives back is an argument, and so are the readings of
-- the clock; what other goroutines do to the topic between two polls is a list of calls.
pub mod Announcing
pub mod Acknowledging
pub mod Holding
pub mod Flows
use dmq_lib.Prelude.{
  ℕ, ◌+◌, ◌%◌, ◌^◌, String, Bool, true, false, ◌||◌, not, Option, none, some, List, [], ◌∷◌, ◌++◌,
  ◌==◌, nat_eq, bytes_eq, string_eq, length, filter, map, any, leb, if◌then◌else◌, Bytes,
}
use dmq_lib.Prelude.Dict.{Dict, lookup, insert, delete}
use dmq_lib.Prelude.Int.{pos}
use dmq_lib.Errors.{Error}
use dmq_lib.Time.{Time}
use dmq_lib.Peer.{Peer}
use dmq_lib.Wire.{DmqMessage, MessageIdAndSize, Wire}
use dmq_lib.Config.{message_source_remote}
use dmq_lib.Topic.{TopicRuntime, call_error, message_ids, messages_by_ids, has_seen, submit_signed}
use dmq_lib.Run.{Call, run}

-- `announced` has the keys of the map, which are IDs as texts.
pub record SubmissionFlow : Type 0 where
  pub announced : List Bytes
  pub outstanding : ℕ

abbrev pub new_flow : SubmissionFlow
new_flow = record { announced = []; outstanding = 0 }

-- `forConnection`, and the end of the goroutine it starts, when the connection stops.
unfoldable pub for_connection :
    Dict String SubmissionFlow → String → Dict String SubmissionFlow × SubmissionFlow
for_connection flows id = elim (lookup id flows) [
  | some f ↦ (flows, f)
  | none ↦ (insert id new_flow flows, new_flow)
]

unfoldable pub drop_connection : Dict String SubmissionFlow → String → Dict String SubmissionFlow
drop_connection flows id = delete id flows

-- _, ok := m[id]
abbrev pub mem : Bytes → List Bytes → Bool
mem id ids = any (λ i. i == id) ids

abbrev pub default_request_count : ℕ
default_request_count = 64

-- What the puller asks of its peer.
pub data Request : Type 0 where
  ids_blocking : ℕ → ℕ → Request
  messages : List Bytes → Request

-- `requestIDs`
unfoldable pub request_ids : ℕ → SubmissionFlow → SubmissionFlow × Request
request_ids count f = (
  record f { outstanding = 0 },
  ids_blocking f.outstanding (if count == 0 then default_request_count else count),
)

-- The first loop of `newIDs`; `taken` is the number of IDs so far.
unfoldable pub unannounced : List Bytes → ℕ → ℕ → List MessageIdAndSize → List MessageIdAndSize
unannounced announced max taken [] = []
unannounced announced max taken (id ∷ ids) =
    let skipped = unannounced announced max taken ids in
    let rest = unannounced announced max (taken + 1) ids in
    if mem id.message_id announced || leb max taken then skipped else id ∷ rest

abbrev pub ids_of : List MessageIdAndSize → List Bytes
ids_of ids = map (λ (i : MessageIdAndSize). i.message_id) ids

-- for key := range … { … }: what is not live is deleted, what is sent is added.
unfoldable pub announce : List Bytes → List MessageIdAndSize → List MessageIdAndSize → List Bytes
announce announced queued ids = filter (λ i. mem i (ids_of queued)) announced ++ ids_of ids

-- callError, where the send failed.
abbrev pub report : TopicRuntime → Option Error → TopicRuntime
report t none = t
report t (some e) = call_error t e

module _ (w : Wire) where
  -- `newIDs`
  unfoldable pub new_ids :
      TopicRuntime
      → SubmissionFlow
      → ℕ
      → Time
      → TopicRuntime × SubmissionFlow × List MessageIdAndSize
  new_ids t f max now =
      let (u, queued) = message_ids w t (pos 0) now in
      let ids = unannounced f.announced max 0 queued in
      (u, record f { announced = announce f.announced queued ids }, ids)

  -- The loop of `replyIDs`: at each poll, the calls that others made on the topic since, and the
  -- clock. There is no reply where the polls end, with the connection or the service.
  unfoldable pub reply_ids :
      (Bytes → String)
      → (List MessageIdAndSize → Option Error)
      → Bool
      → ℕ
      → TopicRuntime
      → SubmissionFlow
      → List (List Call × Time)
      → TopicRuntime × SubmissionFlow × Option (List MessageIdAndSize)
  reply_ids ip_string send blocking count t f [] = (t, f, none)
  reply_ids ip_string send blocking count t f ((others, now) ∷ polls) =
      let (u, g, ids) = new_ids (run w ip_string t others) f count now in
      let held = reply_ids ip_string send blocking count u g polls in
      if leb 1 (length ids) || not blocking then (report u (send ids), g, some ids) else held

  -- The function for requests of messages.
  unfoldable pub on_request_messages :
      (List DmqMessage → Option Error)
      → TopicRuntime
      → List Bytes
      → Time
      → TopicRuntime × List DmqMessage
  on_request_messages send t ids now =
      let (u, ms) = messages_by_ids w t ids now in (report u (send ms), ms)

  -- The loop of the function for replies with messages; a submission reads the clock twice.
  unfoldable pub submit_all :
      TopicRuntime → Option Peer → List (DmqMessage × Time × Time) → TopicRuntime
  submit_all t peer [] = t
  submit_all t peer ((m, checked, now) ∷ ms) =
      let out = submit_signed w t (some m) message_source_remote peer checked now in
      submit_all (report out.topic out.error) peer ms

  -- The function for replies with messages; `send` is the request that follows.
  pub on_reply_messages :
      (Request → Option Error)
      → ℕ
      → TopicRuntime
      → SubmissionFlow
      → Option Peer
      → List (DmqMessage × Time × Time)
      → TopicRuntime × SubmissionFlow × Request
  on_reply_messages send count t f peer ms =
      let (g, request) = request_ids count f in
      (report (submit_all t peer ms) (send request), g, request)

-- The IDs of a reply that the topic has not seen.
unfoldable pub wanted_ids : TopicRuntime → List MessageIdAndSize → List Bytes
wanted_ids t ids = filter (λ i. not (has_seen t i)) (ids_of ids)

-- The function for replies with IDs.
pub on_reply_message_ids :
    (Request → Option Error)
    → ℕ
    → TopicRuntime
    → SubmissionFlow
    → List MessageIdAndSize
    → TopicRuntime × SubmissionFlow × Request
on_reply_message_ids send count t f ids =
    let g = record f { outstanding = length ids % 2 ^ 16 } in
    let wanted = wanted_ids t ids in
    let (h, request) = request_ids count g in
    if leb 1 (length wanted)
    then (report t (send (messages wanted)), g, messages wanted)
    else (report t (send request), h, request)

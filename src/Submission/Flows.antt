-- ===== src/Submission/Flows.antt =====
-- protocol.go: `submissionFlows`, the flows of the connections that one configuration serves.
use dmq_lib.Prelude.{
  ℕ, ◌≡◌, refl, String, Option, none, some, [], ◌==◌, string_eq, if◌then◌else◌, arith, inl, inr,
  Option-cases,
}
use dmq_lib.Prelude.Dict.{Dict, lookup, insert, lookup-insert}
use dmq_lib.Prelude.Int.{ℤ, pos}
use dmq_lib.Errors.{Result, ok, err}
use dmq_lib.Time.{Duration}
use dmq_lib.Peer.{Peer}
use dmq_lib.Manager.{Manager, topic}
use dmq_lib.Submission.{SubmissionFlow, new_flow, for_connection}

pub record SubmissionFlowOptions : Type 0 where
  pub request_count : ℕ
  pub hold_interval : Duration

-- The topic goes by its name.
pub record SubmissionFlows : Type 0 where
  pub topic_name : String
  pub peer : Option Peer
  pub opts : SubmissionFlowOptions
  pub flows : Dict String SubmissionFlow

-- What a message-submission configuration holds of the topic: the size of its queue, and the flows.
pub record SubmissionConfig : Type 0 where
  pub max_queue_size : ℤ
  pub connections : SubmissionFlows

-- `messageSubmissionConfig`
unfoldable pub message_submission_config :
    Manager → String → Option Peer → SubmissionFlowOptions → Result SubmissionConfig
message_submission_config m name peer opts = elim (topic m name) [
  | err e ↦ err e
  | ok rt ↦ ok (record {
    max_queue_size = rt.cfg.queue.max_messages;
    connections = record { topic_name = rt.name; peer = peer; opts = opts; flows = [] };
  })
]

-- `MessageSubmissionConfig`
unfoldable pub manager_message_submission_config : Manager → String → Result SubmissionConfig
manager_message_submission_config m name =
    message_submission_config m name none (record { request_count = 0; hold_interval = pos 0 })

-- A callback on a connection: it works on the connection's flow, which is there from its first use.
unfoldable pub on_flow {ℓ} :
    {A : Type ℓ}
    → SubmissionFlows
    → String
    → (SubmissionFlow → SubmissionFlow × A)
    → SubmissionFlows × A
on_flow fs id call =
    let (flows, f) = for_connection fs.flows id in
    let (g, a) = call f in (record fs { flows = insert id g flows }, a)

-- The flow that a callback starts from.
abbrev pub or_new : Option SubmissionFlow → SubmissionFlow
or_new none = new_flow
or_new (some f) = f

new_connection :
    (d : Dict String SubmissionFlow) (id : String)
    → lookup id d ≡ none
    → for_connection d id ≡ (insert id new_flow d, new_flow)
unfolding for_connection
new_connection d id e = rw (e, for_connection) refl

known_connection :
    (d : Dict String SubmissionFlow) (id : String) (f : SubmissionFlow)
    → lookup id d ≡ some f
    → for_connection d id ≡ (d, f)
unfolding for_connection
known_connection d id f e = rw (e, for_connection) refl

-- A callback on a connection starts from the connection's flow, or on its first use from one with
-- nothing announced and nothing outstanding, and leaves the flow of every other connection alone.
pub on_flow_lem {ℓ} :
    {A : Type ℓ} (fs : SubmissionFlows) (id other : String)
    (call : SubmissionFlow → SubmissionFlow × A)
    → (lookup other (on_flow fs id call).0.flows ≡ (
        if id == other then some (call (or_new (lookup id fs.flows))).0 else lookup other fs.flows))
      × ((on_flow fs id call).1 ≡ (call (or_new (lookup id fs.flows))).1)
unfolding on_flow
on_flow_lem fs id other call = elim (Option-cases (lookup id fs.flows)) [
  | inl e ↦
      let g = (call new_flow).0 in
      rw (new_connection (fs.flows) id e, e)
        (
          ground (
            arith,
            lookup-insert id other g (insert id new_flow fs.flows),
            lookup-insert id other new_flow fs.flows,
          ),
          refl,
        )
  | inr (f, e) ↦
      rw (known_connection fs.flows id f e, e) (lookup-insert id other (call f).0 fs.flows, refl)
]

-- ===== src/Local/Answers.antt =====
-- What a client of local message submission in protocol.go is told.
use dmq_lib.Prelude.{◌≡◌, ◌↔◌, refl, Option, none, some, Bytes, arith}
use dmq_lib.Errors.{Error, reject_reason_from_error}
use dmq_lib.Time.{Time}
use dmq_lib.Wire.{DmqMessage, Wire, IsWire}
use dmq_lib.Config.{message_source_local}
use dmq_lib.Topic.{TopicRuntime, submit_signed}
use dmq_lib.Topic.Admissible.{IsAdmissible, IsAdmissible-iff}
use dmq_lib.Local.{on_submit_message}

no_reason_iff : (e : Option Error) → (reject_reason_from_error e ≡ none) ↔ (e ≡ none)
unfolding reject_reason_from_error
no_reason_iff none = (λ h. refl, λ h. refl)
no_reason_iff (some e) = (λ h. ground (arith, h), λ h. cc)

-- A client is told of no reason to reject its message exactly where the topic admits it: with a body
-- that is not too long, the computed ID or none, in time, authentic where that is asked, not
-- remembered, and with room in the queue of an open topic.
pub on_submit_message_iff :
    (w : Wire) (law : IsWire w) (t : TopicRuntime) (msg : DmqMessage) (checked now : Time)
    → ((on_submit_message w t (some msg) checked now).1 ≡ none)
      ↔ ((i : Bytes) × IsAdmissible w t msg checked now i)
unfolding on_submit_message
on_submit_message_iff w law t msg checked now =
    let told =
      no_reason_iff (submit_signed w t (some msg) message_source_local none checked now).error in
    let admitted = IsAdmissible-iff w law t msg message_source_local none checked now in
    (λ h. admitted.0 (told.0 h), λ x. told.1 (admitted.1 x))

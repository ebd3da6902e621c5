-- ===== src/Wire.antt =====
-- The CIP-0137 types of gOuroboros that types.go gives names to, by the fields that the program
-- reads and writes, and what the program calls on them, as a parameter. A slice is its contents:
-- `nil` and the empty slice are one, and a copy of a slice is the slice.
use dmq_lib.Prelude.{ℕ, String, ◌≡◌, Option, Bytes}
use dmq_lib.Errors.{Error, Result}
use dmq_lib.Time.{Time, Duration}

pub record OperationalCertificate : Type 0 where
  pub kes_verification_key : Bytes
  pub issue_number : ℕ
  pub kes_period : ℕ
  pub cold_signature : Bytes

pub record DmqMessagePayload : Type 0 where
  pub message_id : Bytes
  pub message_body : Bytes
  pub kes_period : ℕ
  pub expires_at : ℕ

pub record DmqMessage : Type 0 where
  pub payload : DmqMessagePayload
  pub kes_signature : Bytes
  pub operational_certificate : OperationalCertificate
  pub cold_verification_key : Bytes

pub record MessageIdAndSize : Type 0 where
  pub message_id : Bytes
  pub size_in_bytes : ℕ

-- `(*MessageAuthenticator).VerifyMessage`: the verdict on a message.
abbrev pub Authenticator : Type 0
Authenticator = DmqMessage → Option Error

-- The functions of gOuroboros: `msg.ID()`, `msg.SetMessageID(id)`, `ComputeDmqMessageID(payload)`,
-- `NewTTLValidator(max, nil).ValidateMessageTTLAt(msg, now)` by the text of its error,
-- `cbor.Encode(msg)`, and `VerifyMessage` on a nil authenticator.
pub record Wire : Type 0 where
  pub msg_id : DmqMessage → Bytes
  pub set_message_id : DmqMessage → Bytes → DmqMessage
  pub compute_dmq_message_id : DmqMessagePayload → Result Bytes
  pub validate_message_ttl_at : Duration → DmqMessage → Time → Option String
  pub encode : DmqMessage → Result Bytes
  pub verify_nil : DmqMessage → Option Error

-- What the program relies on: an ID that was set is read back, and setting one does not change the
-- verdict on the message's lifetime.
pub record IsWire (w : Wire) : Type 0 where
  pub id_set : (m : DmqMessage) (i : Bytes) → w.msg_id (w.set_message_id m i) ≡ i
  pub ttl_set :
      (d : Duration) (m : DmqMessage) (i : Bytes) (now : Time)
      → w.validate_message_ttl_at d (w.set_message_id m i) now ≡ w.validate_message_ttl_at d m now

-- ===== src/Sharing.antt =====
-- Memory: Go's slices are references, and whoever holds one can write through it. topic.go,
-- signer.go and kes_payload.go copy what they keep and what they hand out; here are the copies, on a
-- memory of byte arrays. A slice is the address of its array, or nil.
pub mod Copies
pub mod Owners
pub mod Signers
use dmq_lib.Prelude.{
  ℕ, ◌+◌, Bool, true, false, ◌||◌, Option, none, some, List, [], ◌∷◌, ◌==◌, nat_eq, Bytes,
  if◌then◌else◌, String,
}
use dmq_lib.Wire.{DmqMessage, OperationalCertificate}

pub record Heap : Type 0 where
  pub next : ℕ
  pub cell : ℕ → Bytes

abbrev pub Slice : Type 0
Slice = Option ℕ

-- What a slice shows.
abbrev pub read : Heap → Slice → Bytes
read h none = []
read h (some a) = h.cell a

-- A write through a slice.
unfoldable pub write : Heap → ℕ → Bytes → Heap
write h a bytes = record h { cell = λ b. if b == a then bytes else h.cell b }

-- make([]byte, n), filled.
unfoldable pub alloc : Heap → Bytes → Heap
unfolding write
alloc h bytes = record (write h h.next bytes) { next = h.next + 1 }

unfoldable pub clone_bytes : Heap → Slice → Heap × Slice
clone_bytes h none = (h, none)
clone_bytes h (some a) = (alloc h (h.cell a), some h.next)

pub record SharedCertificate : Type 0 where
  pub kes_verification_key : Slice
  pub issue_number : ℕ
  pub kes_period : ℕ
  pub cold_signature : Slice

-- A message by its slices, its ID first.
pub record SharedMessage : Type 0 where
  pub message_id : Slice
  pub message_body : Slice
  pub kes_period : ℕ
  pub expires_at : ℕ
  pub kes_signature : Slice
  pub operational_certificate : SharedCertificate
  pub cold_verification_key : Slice

-- `cloneOperationalCertificate`, which `OperationalCertificate` of a file signer returns.
unfoldable pub clone_operational_certificate : Heap → SharedCertificate → Heap × SharedCertificate
unfolding clone_bytes
clone_operational_certificate h c =
    let (h1, key) = clone_bytes h c.kes_verification_key in
    let (h2, signature) = clone_bytes h1 c.cold_signature in
    (h2, record c { kes_verification_key = key; cold_signature = signature })

-- The certificate, and the message but for its ID, that the slices show.
abbrev pub certificate_at : Heap → SharedCertificate → OperationalCertificate
certificate_at h c = record {
  kes_verification_key = read h c.kes_verification_key;
  issue_number = c.issue_number;
  kes_period = c.kes_period;
  cold_signature = read h c.cold_signature;
}

abbrev pub message_at : Heap → SharedMessage → DmqMessage
message_at h m = record {
  payload = record {
    message_id = [];
    message_body = read h m.message_body;
    kes_period = m.kes_period;
    expires_at = m.expires_at;
  };
  kes_signature = read h m.kes_signature;
  operational_certificate = certificate_at h m.operational_certificate;
  cold_verification_key = read h m.cold_verification_key;
}

-- `set_message_id` is what gOuroboros does with the ID's slice: the memory, and the slice that the
-- message then holds, the same one or a copy.
module _ (set_message_id : Heap → Slice → Heap × Slice) where
  -- `cloneMessage`; the certificate's slices are copied after the signature.
  unfoldable pub clone_message : Heap → SharedMessage → Heap × SharedMessage
  unfolding clone_bytes clone_operational_certificate
  clone_message h m =
      let (h1, id) = set_message_id h m.message_id in
      let (h2, body) = clone_bytes h1 m.message_body in
      let (h3, signature) = clone_bytes h2 m.kes_signature in
      let (h4, certificate) = clone_operational_certificate h3 m.operational_certificate in
      let (h5, cold) = clone_bytes h4 m.cold_verification_key in
      (
        h5,
        record m {
          message_id = id;
          message_body = body;
          kes_signature = signature;
          operational_certificate = certificate;
          cold_verification_key = cold;
        },
      )

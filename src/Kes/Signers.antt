-- ===== src/Kes/Signers.antt =====
-- The in-process signers: `KESSigner` of kes_payload.go and `FileSigner` of signer.go. Their locks make
-- each method one step. The loop that evolves a key has as fuel the number of periods to go, which is
-- enough since an update moves the key by one.
use dmq_lib.Prelude.{
  ℕ, zero, suc, ◌-◌, String, Bool, not, Option, none, some, List, [], ◌∷◌, ◌==◌, nat_eq, bytes_eq,
  string_eq, length, ltb, if◌then◌else◌, Bytes,
}
use dmq_lib.Errors.{Error, Result, ok, err, plain, context, fail_if, ◌>>=◌, ◌>>◌}
use dmq_lib.Time.{Time}
use dmq_lib.Wire.{DmqMessage, DmqMessagePayload, OperationalCertificate}
use dmq_lib.Cardano.{NetworkParams, in_context}
use dmq_lib.Kes.{
  KesCrypto, SecretKey, LoadedKey, KesSigningCertificate, SignedKesPayload, public_key_size,
  signature_size, relative_kes_period, params_missing, load_kes_signing_key,
  load_operational_certificate, matches, validate_relative_kes_period_for_network,
  current_relative_period_for, payload_signing_bytes, certificate_body,
}

pub record KesSigner : Type 0 where
  pub network : NetworkParams
  pub kes_key : SecretKey
  pub op_cert : KesSigningCertificate

pub record FileSignerConfig : Type 0 where
  pub kes_signing_key_path : String
  pub operational_certificate_path : String
  pub kes_period : ℕ
  pub kes_period_func : Option (Time → Result ℕ)

pub record FileSigner : Type 0 where
  pub kes_skey : SecretKey
  pub kes_vkey : Bytes
  pub op_cert : OperationalCertificate
  pub cold_vkey : Bytes
  pub default_kes_period : ℕ
  pub kes_period_func : Option (Time → Result ℕ)

module _ (k : KesCrypto) where
  -- for key.Period < period { next, err := kes.Update(key) … key = next }
  unfoldable pub advance : ℕ → String → SecretKey → ℕ → SecretKey × Option Error
  advance zero what key period = (key, none)
  advance (suc fuel) what key period =
      if ltb key.period period
      then elim (k.update key) [
        | err e ↦ (key, some (context what e))
        | ok next ↦ advance fuel what next period
      ]
      else (key, none)

  -- `(*KESSigner).advanceTo`: the key is moved step by step.
  unfoldable pub advance_to : SecretKey → ℕ → SecretKey × Option Error
  advance_to key period =
      if ltb period key.period
      then (key, some (plain "KES key already at a later period, cannot sign at earlier period"))
      else advance (period - key.period) "advance KES key" key period

  unfoldable pub new_kes_signer_with_clock : String → String → NetworkParams → Result KesSigner
  new_kes_signer_with_clock kes_key_path op_cert_path params = do
    fail_if (params_missing params)
        (plain "network params: start and slotsPerKESPeriod are required")
    key ← load_kes_signing_key k kes_key_path
    cert ← load_operational_certificate k op_cert_path
    matches k key cert
    ok (record {
      network = params;
      kes_key = record { depth = k.kes_depth; period = 0; bytes = key.secret_key_bytes };
      op_cert = cert;
    })

  unfoldable pub current_period : KesSigner → Time → Result ℕ
  current_period s now = current_relative_period_for k s.network s.op_cert now

  unfoldable pub sign_at_locked : KesSigner → ℕ → Bytes → KesSigner × Result SignedKesPayload
  sign_at_locked s period payload =
      let (key, failed) = advance_to s.kes_key period in
      let moved = record s { kes_key = key } in
      elim (validate_relative_kes_period_for_network k period s.network) [
        | err e ↦ (s, err e)
        | ok _ ↦ elim failed [
          | some e ↦ (moved, err e)
          | none ↦ elim (k.sign key period payload) [
            | err e ↦ (moved, err (context "KES sign" e))
            | ok signature ↦ (
              moved,
              ok (record { vkey = s.op_cert.kes_vkey; period = period; signature = signature }),
            )
          ]
        ]
      ]

  -- Any calls of `SignAt`, one after the other.
  unfoldable pub sign_run : KesSigner → List (ℕ × Bytes) → KesSigner
  sign_run s [] = s
  sign_run s ((period, payload) ∷ calls) = sign_run (sign_at_locked s period payload).0 calls

  -- `Sign`
  unfoldable pub sign_payload : KesSigner → Bytes → Time → KesSigner × Result SignedKesPayload
  sign_payload s payload now = elim (current_relative_period_for k s.network s.op_cert now) [
    | err e ↦ (s, err e)
    | ok period ↦ sign_at_locked s period payload
  ]

  -- The certificate of a file signer, as the other signers hold one.
  abbrev pub file_certificate : FileSigner → KesSigningCertificate
  file_certificate s = record {
    kes_vkey = s.op_cert.kes_verification_key;
    issue_number = s.op_cert.issue_number;
    kes_period = s.op_cert.kes_period;
    signature = s.op_cert.cold_signature;
    cold_vkey = s.cold_vkey;
  }

  abbrev pub file_signer_of : FileSignerConfig → LoadedKey → LoadedKey → FileSigner
  file_signer_of cfg key cert = record {
    kes_skey = record { depth = k.kes_depth; period = 0; bytes = key.skey };
    kes_vkey = key.vkey;
    op_cert = record {
      kes_verification_key = cert.vkey;
      issue_number = cert.op_cert_issue_number;
      kes_period = cert.op_cert_kes_period;
      cold_signature = cert.op_cert_signature;
    };
    cold_vkey = cert.op_cert_cold_vkey;
    default_kes_period = if cfg.kes_period == 0 then cert.op_cert_kes_period else cfg.kes_period;
    kes_period_func = cfg.kes_period_func;
  }

  -- `(*FileSigner).ValidateOperationalCertificate`
  unfoldable pub file_validate_operational_certificate : FileSigner → Result (Unit {0})
  file_validate_operational_certificate s = do
    fail_if (not (length s.op_cert.kes_verification_key == public_key_size))
        (plain "opcert KES verification key must be 32 bytes")
    fail_if (not (length s.cold_vkey == public_key_size))
        (plain "opcert cold verification key must be 32 bytes")
    fail_if (not (length s.op_cert.cold_signature == signature_size))
        (plain "opcert cold signature must be 64 bytes")
    fail_if
        (not (
          k.ed25519_verify s.cold_vkey (certificate_body (file_certificate s))
            s.op_cert.cold_signature))
        (plain "opcert cold signature verification failed")

  unfoldable pub new_file_signer : FileSignerConfig → Result FileSigner
  new_file_signer cfg = do
    fail_if (cfg.kes_signing_key_path == "") (plain "KES signing key path is required")
    fail_if (cfg.operational_certificate_path == "")
        (plain "operational certificate path is required")
    key ← in_context "load KES signing key" (k.load_key_from_file cfg.kes_signing_key_path)
    fail_if (not (length key.skey == k.secret_key_size)) (plain "invalid KES signing key size")
    cert ←
        in_context "load operational certificate"
          (k.load_key_from_file cfg.operational_certificate_path)
    fail_if (not (length cert.vkey == public_key_size))
        (plain "invalid opcert KES verification key size")
    fail_if (not (length cert.op_cert_cold_vkey == public_key_size))
        (plain "invalid opcert cold verification key size")
    fail_if (not (length cert.op_cert_signature == signature_size))
        (plain "invalid opcert cold signature size")
    fail_if (not (key.vkey == cert.vkey))
        (plain "opcert KES verification key does not match KES signing key")
    file_validate_operational_certificate (file_signer_of cfg key cert)
    ok (file_signer_of cfg key cert)

  unfoldable pub file_current_kes_period : FileSigner → DmqMessagePayload → Time → Result ℕ
  file_current_kes_period s payload now =
      if payload.kes_period == 0
      then elim s.kes_period_func [
        | some period_at ↦ period_at now
        | none ↦ ok s.default_kes_period
      ]
      else ok payload.kes_period

  -- `evolveToRelativePeriod`: the key is replaced once it has reached the period, or not at all.
  unfoldable pub evolve_to_relative_period : SecretKey → ℕ → Result SecretKey
  evolve_to_relative_period key period =
      let (reached, failed) = advance (period - key.period) "update KES key" key period in
      if ltb period key.period
      then err (plain "cannot evolve KES key backward")
      else elim failed [ some e ↦ err e | none ↦ ok reached ]

  -- The end of `Sign`, with the evolved key: the signature and the message.
  unfoldable pub file_sign_with : FileSigner → SecretKey → ℕ → DmqMessagePayload → Result DmqMessage
  file_sign_with s key relative payload = do
    bytes ← payload_signing_bytes k payload
    signature ← in_context "KES sign" (k.sign key relative bytes)
    k.set_computed_message_id (record {
      payload = payload;
      kes_signature = signature;
      operational_certificate = s.op_cert;
      cold_verification_key = s.cold_vkey;
    })

  -- `(*FileSigner).Sign`
  unfoldable pub file_sign : FileSigner → DmqMessagePayload → Time → FileSigner × Result DmqMessage
  file_sign s payload now = elim (file_current_kes_period s payload now) [
    | err e ↦ (s, err e)
    | ok period ↦
        let stamped = record payload { message_id = []; kes_period = period } in
        let signed : FileSigner × Result DmqMessage =
          elim (relative_kes_period period s.op_cert.kes_period) [
            | err e ↦ (s, err e)
            | ok relative ↦ elim (evolve_to_relative_period s.kes_skey relative) [
              | err e ↦ (s, err e)
              | ok key ↦ (record s { kes_skey = key }, file_sign_with s key relative stamped)
            ]
          ] in
        if payload.expires_at == 0
        then (s, err (plain "payload expiration is required"))
        else signed
  ]

  -- `(*FileSigner).Verify`
  unfoldable pub verify : Option DmqMessage → Result Bool
  verify none = err (plain "message is nil")
  verify (some msg) = do
    bytes ← payload_signing_bytes k msg.payload
    relative ← relative_kes_period msg.payload.kes_period msg.operational_certificate.kes_period
    ok (
        k.verify_signed msg.operational_certificate.kes_verification_key relative bytes
          msg.kes_signature)

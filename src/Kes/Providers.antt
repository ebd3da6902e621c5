-- ===== src/Kes/Providers.antt =====
-- kes_payload.go: the `KESSigningProvider` interface, by what its methods answer while one message
-- is signed, and the signer of messages on top of it.
use dmq_lib.Prelude.{
  ℕ, ◌+◌, ◌-◌, ◌%◌, ◌^◌, not, Option, none, some, [], ◌==◌, nat_eq, bytes_eq, ltb, Bytes,
}
use dmq_lib.Errors.{
  Result, ok, err, plain, sentinel, signer_required, kes_key_mismatch, fail_if, ◌>>=◌, ◌>>◌,
}
use dmq_lib.Wire.{DmqMessage, DmqMessagePayload, OperationalCertificate}
use dmq_lib.Cardano.{NetworkParams, in_context}
use dmq_lib.Kes.{
  KesCrypto, KesSigningCertificate, SignedKesPayload, payload_signing_bytes,
  validate_relative_kes_period_for_network,
}

pub record KesSigningProvider : Type 0 where
  pub current_period : Result ℕ
  pub operational_certificate : KesSigningCertificate
  pub sign_at : ℕ → Bytes → Result SignedKesPayload
  pub sign : Bytes → Result SignedKesPayload

module _ (k : KesCrypto) where
  abbrev pub wire_certificate : KesSigningCertificate → OperationalCertificate
  wire_certificate cert = record {
    kes_verification_key = cert.kes_vkey;
    issue_number = cert.issue_number;
    kes_period = cert.kes_period;
    cold_signature = cert.signature;
  }

  -- `KESSigningProviderSigner.Sign` on the provider that is active.
  unfoldable pub provider_sign : Option KesSigningProvider → DmqMessagePayload → Result DmqMessage
  provider_sign none payload = err (sentinel signer_required)
  provider_sign (some provider) payload =
      let cert = provider.operational_certificate in
      do
        fail_if (payload.expires_at == 0) (plain "dmq payload expiration is required")
        relative ← provider.current_period
        fail_if (ltb (2 ^ 64 - 1 - cert.kes_period) relative) (plain "KES period overflow")
        let stamped = record payload {
          message_id = [];
          kes_period = (cert.kes_period + relative) % 2 ^ 64;
        }
        bytes ← payload_signing_bytes k stamped
        signed ← in_context "KES sign" (provider.sign_at relative bytes)
        fail_if (not (signed.vkey == cert.kes_vkey)) (sentinel kes_key_mismatch)
        fail_if (not (signed.period == relative))
            (plain "KES signer returned another relative period than was requested")
        in_context "compute dmq message id" (
            k.set_computed_message_id (record {
              payload = stamped;
              kes_signature = signed.signature;
              operational_certificate = wire_certificate cert;
              cold_verification_key = cert.cold_vkey;
            }))

  -- `BuildSignedMessage`
  unfoldable pub build_signed_message : Option KesSigningProvider → Bytes → ℕ → Result DmqMessage
  build_signed_message provider body expires_at =
      provider_sign provider
        (record { message_id = []; message_body = body; kes_period = 0; expires_at = expires_at })

  -- `(*ExternalKESSigner).SignAt`; `helper` is what the parsed output of the command is.
  unfoldable pub external_sign_at :
      NetworkParams
      → KesSigningCertificate
      → (ℕ → Bytes → Result Bytes)
      → ℕ
      → Bytes
      → Result SignedKesPayload
  external_sign_at network cert helper period payload = do
    validate_relative_kes_period_for_network k period network
    signature ← helper period payload
    fail_if (not (k.verify_signed cert.kes_vkey period payload signature))
        (plain "external KES signer returned an invalid signature")
    ok (record { vkey = cert.kes_vkey; period = period; signature = signature })

  -- An external signer as a provider.
  abbrev pub external_provider :
      NetworkParams
      → KesSigningCertificate
      → (ℕ → Bytes → Result Bytes)
      → Result ℕ
      → KesSigningProvider
  external_provider network cert helper period = record {
    current_period = period;
    operational_certificate = cert;
    sign_at = external_sign_at network cert helper;
    sign = λ payload. period >>= λ p. external_sign_at network cert helper p payload;
  }

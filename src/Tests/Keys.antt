-- ===== src/Tests/Keys.antt =====
-- Examples of what is shown of KES signers and certificates: keys of one byte, whose signature is
-- the payload, with the period in front.
use dmq_lib.Prelude.{
  ℕ, ◌+◌, ◌*◌, ◌<◌, ◌≡◌, ◌↔◌, ◌≢◌, refl, true, none, some, [], ◌∷◌, ◌==◌, ==_iff, bytes_eq, Bytes,
  arith,
}
use dmq_lib.Prelude.Int.{pos, ◌≤ℤ◌}
use dmq_lib.Errors.{Result, ok, err, plain}
use dmq_lib.Time.{seconds, nanos_per_second, time_sub, time_add}
use dmq_lib.Wire.{DmqMessage, DmqMessagePayload}
use dmq_lib.Cardano.{
  NetworkParams, cardano_preview_start, cardano_slots_per_kes_period, current_kes_period_for,
  current_absolute_slot_for, current_slot_for, kes_period_start,
}
use dmq_lib.Kes.{
  KesCrypto, IsKesCrypto, SecretKey, KesSigningCertificate, SignedKesPayload,
  OperationalCredentialStatus, effective_max_kes_evolutions, crypto_max_kes_evolutions,
  current_relative_period_for, credential_status, validate_relative_kes_period_for_network,
  payload_signing_bytes, relative_kes_period,
}
use dmq_lib.Kes.Signers.{
  KesSigner, FileSigner, advance, advance_to, sign_at_locked, sign_run, file_sign, file_sign_with,
  file_current_kes_period, evolve_to_relative_period, verify,
}
use dmq_lib.Kes.Providers.{provider_sign, external_sign_at}
use dmq_lib.Kes.Reloading.{of_signer, new_reloading, reload, delegate}
use dmq_lib.Kes.Evolution.{signed_at_period, no_earlier_signature}
use dmq_lib.Kes.Keys.{IsPairing, file_sign-verify, provider_sign-verify}
use dmq_lib.Kes.Validity.{relative_of, IsCurrent, credential_status-relative, status_before_expiry}
use dmq_lib.Kes.Reloads.{reloads, last_made, delegate_last}

abbrev pub toy_update : SecretKey → Result SecretKey
toy_update key = ok (record key { period = key.period + 1 })

abbrev pub toy_crypto : KesCrypto
toy_crypto = record {
  kes_depth = 6;
  secret_key_size = 1;
  update = toy_update;
  sign = λ key period bytes. ok (period ∷ bytes);
  verify_signed = λ vkey period bytes signature. signature == (period ∷ bytes);
  ed25519_verify = λ vkey body signature. true;
  load_key_from_file = λ path. err (plain "no files");
  encode_payload = λ p. ok (p.expires_at ∷ p.message_body);
  encode_bytes = λ bytes. ok bytes;
  set_computed_message_id =
      λ m. ok (record m { payload = record (m.payload) { message_id = 1 ∷ [] } });
}

toy_crypto-IsKesCrypto : IsKesCrypto toy_crypto
toy_crypto-IsKesCrypto = record {
  updated = λ key next h. ground (arith, h);
  identified = λ m m' h. ground (arith, h);
}

abbrev pub preview_params : NetworkParams
preview_params = record {
  start = cardano_preview_start;
  absolute_start_slot = 0;
  slot_length = seconds 1;
  epoch_length = 86400;
  slots_per_kes_period = cardano_slots_per_kes_period;
  max_kes_evolutions = 62;
}

abbrev toy_certificate : KesSigningCertificate
toy_certificate = record {
  kes_vkey = 5 ∷ [];
  issue_number = 0;
  kes_period = 1;
  signature = [];
  cold_vkey = [];
}

abbrev toy_signer : KesSigner
toy_signer = record {
  network = preview_params;
  kes_key = record { depth = 6; period = 0; bytes = 3 ∷ [] };
  op_cert = toy_certificate;
}

-- A signature at period 2.
abbrev signature_at_two : SignedKesPayload
signature_at_two = record { vkey = 5 ∷ []; period = 2; signature = 2 ∷ 9 ∷ [] }

signed_at_two : (sign_at_locked toy_crypto toy_signer 2 (9 ∷ [])).1 ≡ ok signature_at_two
unfolding sign_at_locked advance_to advance validate_relative_kes_period_for_network
    effective_max_kes_evolutions crypto_max_kes_evolutions
signed_at_two = refl

signed_at_period_example :
    ((sign_at_locked toy_crypto toy_signer 2 (9 ∷ [])).0.kes_key.period ≡ 2)
    × ((toy_crypto.sign (sign_at_locked toy_crypto toy_signer 2 (9 ∷ [])).0.kes_key 2 (9 ∷ [])
          ≡ ok signature_at_two.signature)
        × ((signature_at_two.period ≡ 2)
            × (2 < effective_max_kes_evolutions toy_signer.network toy_crypto.kes_depth)))
signed_at_period_example =
    signed_at_period toy_crypto toy_crypto-IsKesCrypto toy_signer 2 (9 ∷ []) signature_at_two
      signed_at_two

no_earlier_signature_example :
    (sign_at_locked toy_crypto
      (sign_run toy_crypto
        (sign_at_locked toy_crypto toy_signer 2 (9 ∷ [])).0
        ((3, 8 ∷ []) ∷ (0, 8 ∷ []) ∷ []))
      1
      (7 ∷ [])).1
    ≢ ok signature_at_two
no_earlier_signature_example =
    no_earlier_signature toy_crypto toy_crypto-IsKesCrypto toy_signer 2 1 (9 ∷ []) (7 ∷ [])
      signature_at_two signature_at_two ((3, 8 ∷ []) ∷ (0, 8 ∷ []) ∷ []) signed_at_two (omega arith)

credential_status-relative_example :
    (relative_of (credential_status toy_crypto toy_certificate preview_params (seconds 1700000000))
      ≡ current_relative_period_for toy_crypto preview_params toy_certificate (seconds 1700000000))
    × ((relative_of
            (credential_status toy_crypto toy_certificate preview_params (seconds 1700000000))
          ≡ ok 30)
        ↔ IsCurrent toy_crypto toy_certificate preview_params (seconds 1700000000) 30)
credential_status-relative_example =
    credential_status-relative toy_crypto toy_certificate preview_params (seconds 1700000000) 30

delegate_last_example :
    (signer : ℕ) × (ok (some 4) ≡ ok (some signer))
    × (delegate
          (reloads
            (record { wrapper = of_signer; has_factory = true; active = some 4 })
            (err (plain "no key") ∷ ok (some 6) ∷ ok none ∷ []))
          (λ n. ok n)
        ≡ ok (last_made signer (err (plain "no key") ∷ ok (some 6) ∷ ok none ∷ [])))
unfolding new_reloading reload
delegate_last_example =
    delegate_last of_signer true (ok (some 4))
      (record { wrapper = of_signer; has_factory = true; active = some 4 })
      (err (plain "no key") ∷ ok (some 6) ∷ ok none ∷ []) (λ n. ok n) refl

abbrev AnyPair : SecretKey → Bytes → Type 0
AnyPair key vkey = Unit

toy_crypto-IsPairing : IsPairing toy_crypto AnyPair
toy_crypto-IsPairing = record {
  kept = λ key next vkey u h. h;
  verifies =
      λ key vkey bytes signature h e. ground (arith, e, ==_iff signature (key.period ∷ bytes));
}

abbrev toy_payload : DmqMessagePayload
toy_payload = record { message_id = []; message_body = 9 ∷ []; kes_period = 3; expires_at = 1000 }

abbrev toy_file_signer : FileSigner
toy_file_signer = record {
  kes_skey = record { depth = 6; period = 0; bytes = 3 ∷ [] };
  kes_vkey = 5 ∷ [];
  op_cert = record {
    kes_verification_key = 5 ∷ [];
    issue_number = 0;
    kes_period = 1;
    cold_signature = [];
  };
  cold_vkey = [];
  default_kes_period = 1;
  kes_period_func = none;
}

abbrev toy_message : DmqMessage
toy_message = record {
  payload = record {
    message_id = 1 ∷ [];
    message_body = 9 ∷ [];
    kes_period = 3;
    expires_at = 1000;
  };
  kes_signature = 2 ∷ 1000 ∷ 9 ∷ [];
  operational_certificate = record {
    kes_verification_key = 5 ∷ [];
    issue_number = 0;
    kes_period = 1;
    cold_signature = [];
  };
  cold_verification_key = [];
}

file_sign-verify_example :
    (verify toy_crypto (some toy_message) ≡ ok true)
    × AnyPair (file_sign toy_crypto toy_file_signer toy_payload (seconds 1)).0.kes_skey (5 ∷ [])
unfolding file_sign file_current_kes_period relative_kes_period evolve_to_relative_period advance
    file_sign_with payload_signing_bytes
file_sign-verify_example =
    file_sign-verify toy_crypto toy_crypto-IsKesCrypto AnyPair toy_crypto-IsPairing toy_file_signer
      toy_payload (seconds 1) toy_message tt refl

abbrev toy_helper : ℕ → Bytes → Result Bytes
toy_helper period bytes = ok (period ∷ bytes)

provider_sign-verify_example : verify toy_crypto (some toy_message) ≡ ok true
unfolding provider_sign external_sign_at payload_signing_bytes
    validate_relative_kes_period_for_network effective_max_kes_evolutions crypto_max_kes_evolutions
provider_sign-verify_example =
    provider_sign-verify toy_crypto toy_crypto-IsKesCrypto preview_params toy_certificate toy_helper
      (ok 2) toy_payload toy_message (omega arith) refl

abbrev toy_status : OperationalCredentialStatus
toy_status = record {
  kes_vkey = 5 ∷ [];
  op_cert_kes_period = 1;
  current_kes_period = 1;
  relative_kes_period = 0;
  max_kes_evolutions = 62;
  remaining_kes_evolutions = 62;
  expires_at = seconds 1674820800;
}

status_before_expiry_example :
    ¬ (toy_status.expires_at ≤ℤ pos (1666656000 * nanos_per_second + 200000 * nanos_per_second))
unfolding credential_status current_kes_period_for current_absolute_slot_for current_slot_for
    effective_max_kes_evolutions crypto_max_kes_evolutions kes_period_start time_sub time_add
status_before_expiry_example =
    status_before_expiry toy_crypto toy_certificate preview_params nanos_per_second
      (1666656000 * nanos_per_second) 0 129600 (200000 * nanos_per_second) toy_status refl refl refl
      refl (omega arith) (omega arith) (omega arith) (omega arith) (omega arith) (omega arith)
      (omega arith) (omega arith) (omega arith) refl

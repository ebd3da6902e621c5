-- ===== src/Kes.antt =====
-- kes_payload.go and signer.go: what the KES signers share. The KES and Ed25519 primitives, the file
-- loader, CBOR and the setting of the computed message ID are other packages', the parameter
-- `KesCrypto`. Periods are 64-bit words.
pub mod Evolution
pub mod Progress
pub mod Validity
pub mod Signers
pub mod Providers
pub mod Keys
pub mod Reloading
pub mod Reloads
pub mod External
pub mod Certificates
use dmq_lib.Prelude.{
  ℕ, ◌+◌, ◌-◌, ◌*◌, ◌/◌, ◌%◌, ◌^◌, String, Bool, true, false, ◌&&◌, ◌||◌, not, Option, none, some,
  List, [], ◌∷◌, ◌++◌, ◌≡◌, ◌==◌, nat_eq, bytes_eq, string_eq, length, ltb, leb, if◌then◌else◌,
  Bytes,
}
use dmq_lib.Prelude.Int.{ℤ, pos, negsuc}
use dmq_lib.Errors.{
  Error, Result, ok, err, plain, context, sentinel, kes_key_mismatch, fail_if, ◌>>=◌, ◌>>◌,
}
use dmq_lib.Text.{is_blank}
use dmq_lib.Time.{Time}
use dmq_lib.Wire.{DmqMessage, DmqMessagePayload}
use dmq_lib.Cardano.{NetworkParams, zero_time, in_context, current_kes_period_for, kes_period_start}

-- `kes.SecretKey`, and what `bursa.LoadKeyFromFile` reads.
pub record SecretKey : Type 0 where
  pub depth : ℕ
  pub period : ℕ
  pub bytes : Bytes

pub record LoadedKey : Type 0 where
  pub skey : Bytes
  pub vkey : Bytes
  pub op_cert_cold_vkey : Bytes
  pub op_cert_signature : Bytes
  pub op_cert_issue_number : ℕ
  pub op_cert_kes_period : ℕ

pub record KesCrypto : Type 0 where
  pub kes_depth : ℕ
  pub secret_key_size : ℕ
  pub update : SecretKey → Result SecretKey
  pub sign : SecretKey → ℕ → Bytes → Result Bytes
  pub verify_signed : Bytes → ℕ → Bytes → Bytes → Bool
  pub ed25519_verify : Bytes → Bytes → Bytes → Bool
  pub load_key_from_file : String → Result LoadedKey
  pub encode_payload : DmqMessagePayload → Result Bytes
  pub encode_bytes : Bytes → Result Bytes
  pub set_computed_message_id : DmqMessage → Result DmqMessage

-- What the program relies on: an update moves a key on by one period, and setting the computed ID
-- changes nothing else of a message.
pub record IsKesCrypto (k : KesCrypto) : Type 0 where
  pub updated : (key next : SecretKey) → k.update key ≡ ok next → next.period ≡ key.period + 1
  pub identified :
      (m m' : DmqMessage)
      → k.set_computed_message_id m ≡ ok m'
      → m' ≡ record m { payload = record (m.payload) { message_id = m'.payload.message_id } }

pub record KesSigningKey : Type 0 where
  pub secret_key_bytes : Bytes
  pub verification_key : Bytes

pub record KesSigningCertificate : Type 0 where
  pub kes_vkey : Bytes
  pub issue_number : ℕ
  pub kes_period : ℕ
  pub signature : Bytes
  pub cold_vkey : Bytes

pub record SignedKesPayload : Type 0 where
  pub vkey : Bytes
  pub period : ℕ
  pub signature : Bytes

pub record OperationalCredentialStatus : Type 0 where
  pub kes_vkey : Bytes
  pub op_cert_kes_period : ℕ
  pub current_kes_period : ℕ
  pub relative_kes_period : ℕ
  pub max_kes_evolutions : ℕ
  pub remaining_kes_evolutions : ℕ
  pub expires_at : Time

abbrev pub public_key_size : ℕ
public_key_size = 32

abbrev pub signature_size : ℕ
signature_size = 64

-- binary.BigEndian.PutUint64
abbrev pub uint64_bytes : ℕ → Bytes
uint64_bytes n =
    n / 2 ^ 56 % 256
    ∷ n / 2 ^ 48 % 256
    ∷ n / 2 ^ 40 % 256
    ∷ n / 2 ^ 32 % 256
    ∷ n / 2 ^ 24 % 256
    ∷ n / 2 ^ 16 % 256
    ∷ n / 2 ^ 8 % 256
    ∷ n % 256
    ∷ []

-- The body of a certificate that the cold key signs.
unfoldable pub certificate_body : KesSigningCertificate → Bytes
certificate_body cert =
    cert.kes_vkey ++ (uint64_bytes cert.issue_number ++ uint64_bytes cert.kes_period)

unfoldable pub relative_kes_period : ℕ → ℕ → Result ℕ
relative_kes_period period op_cert_start =
    if ltb period op_cert_start
    then err (plain "KES period is before opcert start period")
    else ok (period - op_cert_start)

unfoldable pub crypto_max_kes_evolutions : ℕ → ℕ
crypto_max_kes_evolutions depth = if leb 63 depth then 2 ^ 63 else 2 ^ depth % 2 ^ 64

unfoldable pub effective_max_kes_evolutions : NetworkParams → ℕ → ℕ
effective_max_kes_evolutions network depth =
    let crypto_max = crypto_max_kes_evolutions depth in
    if network.max_kes_evolutions == 0 || ltb crypto_max network.max_kes_evolutions
    then crypto_max
    else network.max_kes_evolutions

abbrev pub same_time : Time → Time → Bool
same_time (pos a) (pos b) = a == b
same_time (negsuc a) (negsuc b) = a == b
same_time _ _ = false

-- params.Start.IsZero() || params.SlotsPerKESPeriod == 0
unfoldable pub params_missing : NetworkParams → Bool
params_missing p = same_time p.start zero_time || p.slots_per_kes_period == 0

module _ (k : KesCrypto) where
  -- The sizes and the cold key's signature.
  unfoldable pub validate_operational_certificate : KesSigningCertificate → Result (Unit {0})
  validate_operational_certificate cert = do
    fail_if (not (length cert.kes_vkey == public_key_size))
        (plain "opcert KES verification key size")
    fail_if (not (length cert.cold_vkey == public_key_size))
        (plain "opcert cold verification key size")
    fail_if (not (length cert.signature == signature_size)) (plain "opcert cold signature size")
    fail_if (not (k.ed25519_verify cert.cold_vkey (certificate_body cert) cert.signature))
        (plain "opcert cold signature verification failed")

  unfoldable pub load_kes_signing_key : String → Result KesSigningKey
  load_kes_signing_key path = do
    loaded ← in_context "load KES signing key" (k.load_key_from_file path)
    fail_if (not (length loaded.skey == k.secret_key_size)) (plain "invalid KES signing key size")
    fail_if (not (length loaded.vkey == public_key_size))
        (plain "invalid KES verification key size")
    ok (record { secret_key_bytes = loaded.skey; verification_key = loaded.vkey })

  abbrev pub loaded_certificate : LoadedKey → KesSigningCertificate
  loaded_certificate loaded = record {
    kes_vkey = loaded.vkey;
    issue_number = loaded.op_cert_issue_number;
    kes_period = loaded.op_cert_kes_period;
    signature = loaded.op_cert_signature;
    cold_vkey = loaded.op_cert_cold_vkey;
  }

  unfoldable pub load_operational_certificate : String → Result KesSigningCertificate
  load_operational_certificate path = do
    loaded ← in_context "load operational certificate" (k.load_key_from_file path)
    validate_operational_certificate (loaded_certificate loaded)
    ok (loaded_certificate loaded)

  unfoldable pub kes_verification_key_from_op_cert : String → Result Bytes
  kes_verification_key_from_op_cert path = do
    cert ← load_operational_certificate path
    ok cert.kes_vkey

  unfoldable pub cold_verification_key_from_op_cert : String → Result Bytes
  cold_verification_key_from_op_cert path = do
    cert ← load_operational_certificate path
    ok cert.cold_vkey

  -- if !bytes.Equal(kesKey.VerificationKey, cert.KESVKey) { return …, ErrKESKeyMismatch }
  abbrev pub matches : KesSigningKey → KesSigningCertificate → Result (Unit {0})
  matches key cert =
      fail_if (not (key.verification_key == cert.kes_vkey)) (sentinel kes_key_mismatch)

  unfoldable pub validate_operational_credentials : String → String → Result (Unit {0})
  validate_operational_credentials kes_key_path op_cert_path = do
    key ← load_kes_signing_key kes_key_path
    cert ← load_operational_certificate op_cert_path
    matches key cert

  unfoldable pub validate_relative_kes_period_for_network : ℕ → NetworkParams → Result (Unit {0})
  validate_relative_kes_period_for_network period network =
      fail_if (leb (effective_max_kes_evolutions network k.kes_depth) period)
        (plain "KES period past op cert validity - rotate operational certificate")

  pub current_relative_period_for : NetworkParams → KesSigningCertificate → Time → Result ℕ
  current_relative_period_for network cert now = do
    absolute ← current_kes_period_for network now
    fail_if (ltb absolute cert.kes_period) (plain "system clock is before op cert period")
    validate_relative_kes_period_for_network (absolute - cert.kes_period) network
    ok (absolute - cert.kes_period)

  -- if strings.TrimSpace(kesKeyPath) != "" { … }
  unfoldable pub check_kes_key : String → KesSigningCertificate → Result (Unit {0})
  check_kes_key kes_key_path cert =
      let checked = load_kes_signing_key kes_key_path >>= λ key. matches key cert in
      if is_blank kes_key_path then ok tt else checked

  -- The status from the certificate, once it is loaded and checked.
  unfoldable pub credential_status :
      KesSigningCertificate → NetworkParams → Time → Result OperationalCredentialStatus
  credential_status cert params now = do
    absolute ← current_kes_period_for params now
    fail_if (ltb absolute cert.kes_period) (plain "system clock is before op cert period")
    fail_if (leb (effective_max_kes_evolutions params k.kes_depth) (absolute - cert.kes_period))
        (plain "KES period past op cert validity - rotate operational certificate")
    ok (record {
      kes_vkey = cert.kes_vkey;
      op_cert_kes_period = cert.kes_period;
      current_kes_period = absolute;
      relative_kes_period = absolute - cert.kes_period;
      max_kes_evolutions = effective_max_kes_evolutions params k.kes_depth;
      remaining_kes_evolutions =
          effective_max_kes_evolutions params k.kes_depth - (absolute - cert.kes_period);
      expires_at =
          kes_period_start params
            ((cert.kes_period + effective_max_kes_evolutions params k.kes_depth) % 2 ^ 64);
    })

  unfoldable pub new_operational_credential_status :
      String → String → NetworkParams → Time → Result OperationalCredentialStatus
  new_operational_credential_status kes_key_path op_cert_path params now = do
    fail_if (params_missing params)
        (plain "network params: start and slotsPerKESPeriod are required")
    cert ← load_operational_certificate op_cert_path
    check_kes_key kes_key_path cert
    credential_status cert params now

  -- `PayloadSigningBytes`
  unfoldable pub payload_signing_bytes : DmqMessagePayload → Result Bytes
  payload_signing_bytes payload = do
    encoded ←
        in_context "encode DMQ payload" (k.encode_payload (record payload { message_id = [] }))
    in_context "wrap DMQ payload" (k.encode_bytes encoded)

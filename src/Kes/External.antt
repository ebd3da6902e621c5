-- ===== src/Kes/External.antt =====
-- kes_payload.go: the signer that runs a helper program. A text is its code points where the program
-- looks at its characters. How a run of the helper ends is a function of what it is started with;
-- the time limit and the standard error decide only the error of a run that fails.
pub mod Signatures
pub mod Checked
use dmq_lib.Prelude.{
  ℕ, String, Bool, true, false, ◌&&◌, ◌||◌, not, List, [], ◌∷◌, ◌++◌, ◌==◌, nat_eq, string_eq, leb,
  ltb, any, if◌then◌else◌, Bytes,
}
use dmq_lib.Errors.{Error, Result, ok, err, plain, context, fail_if, ◌>>=◌, ◌>>◌}
use dmq_lib.Text.{◌+s◌, codes, format_uint, trim_text}
use dmq_lib.Encoding.{hex_encode, hex_decode, base64_decode, trim_space, is_end}
use dmq_lib.Time.{Time, Duration, seconds, is_nonpositive}
use dmq_lib.Cardano.{NetworkParams, in_context}
use dmq_lib.Kes.{
  KesCrypto, KesSigningCertificate, SignedKesPayload, params_missing, load_operational_certificate,
  current_relative_period_for,
}
use dmq_lib.Kes.Providers.{external_sign_at}

-- `Now` is the clock, whose readings are arguments.
pub record ExternalKesSignerConfig : Type 0 where
  pub command : String
  pub operational_certificate_path : String
  pub network : NetworkParams
  pub timeout : Duration
  pub env_prefix : String

pub record ExternalKesSigner : Type 0 where
  pub command : String
  pub op_cert_path : String
  pub timeout : Duration
  pub network : NetworkParams
  pub op_cert : KesSigningCertificate
  pub env_prefix : String

abbrev is_prefix_char : ℕ → Bool
is_prefix_char r = (leb b'A' r && leb r b'Z') || (leb b'0' r && leb r b'9') || r == b'_'

unfoldable pub valid_env_prefix : List ℕ → Bool
valid_env_prefix [] = true
valid_env_prefix (r ∷ rs) = is_prefix_char r && valid_env_prefix rs

-- strings.ContainsAny(command, "\x00\r\n")
unfoldable pub has_control : List ℕ → Bool
has_control cs = any (λ c. c == 0 || c == 13 || c == 10) cs

-- filepath.IsAbs, on Unix
unfoldable pub is_abs : List ℕ → Bool
is_abs [] = false
is_abs (c ∷ cs) = c == b'/'

unfoldable pub timeout_or_default : Duration → Duration
timeout_or_default d = if is_nonpositive d then seconds 5 else d

unfoldable pub prefix_or_default : String → String
prefix_or_default p = if trim_text p == "" then "DMQ" else trim_text p

-- The end of `ParseExternalKESSignature`, for a text that is not hex.
unfoldable pub base64_signature : Bytes → Result Bytes
base64_signature text = do
  signature ← in_context "external KES signer signature must be hex or base64" (base64_decode text)
  fail_if (is_end signature) (plain "external KES signer returned empty base64 signature")
  ok signature

-- `ParseExternalKESSignature`
unfoldable pub parse_external_kes_signature : Bytes → Result Bytes
parse_external_kes_signature raw =
    let text = trim_space raw in
    if is_end text
    then err (plain "external KES signer returned empty signature")
    else elim (hex_decode text) [
      | err _ ↦ base64_signature text
      | ok signature ↦
          if is_end signature
          then err (plain "external KES signer returned empty hex signature")
          else ok signature
    ]

-- What a helper is started with; `environment` is added to that of the process.
pub record HelperCall : Type 0 where
  pub command : String
  pub argument : String
  pub stdin : Bytes
  pub environment : List (List ℕ)

-- How it ends: with its standard output, or without one.
pub data HelperRun : Type 0 where
  exited : Bytes → HelperRun
  timed_out : HelperRun
  failed : Error → HelperRun

unfoldable pub helper_call : ExternalKesSigner → ℕ → Bytes → HelperCall
helper_call s period payload = record {
  command = s.command;
  argument = format_uint period;
  stdin = payload;
  environment =
      (codes (s.env_prefix +s "_KES_VKEY_HEX=") ++ hex_encode s.op_cert.kes_vkey)
      ∷ codes (s.env_prefix +s "_KES_PERIOD=" +s format_uint period)
      ∷ codes (s.env_prefix +s "_KES_SIGNER_OP_CERT_PATH=" +s s.op_cert_path)
      ∷ [];
}

unfoldable pub helper_signature : HelperRun → Result Bytes
helper_signature (exited stdout) = parse_external_kes_signature stdout
helper_signature timed_out = err (plain "external KES signer timed out")
helper_signature (failed e) = err (context "external KES signer" e)

module _ (k : KesCrypto) where
  -- `NewExternalKESSignerFromConfig`
  unfoldable pub new_external_kes_signer_from_config :
      ExternalKesSignerConfig → Result ExternalKesSigner
  new_external_kes_signer_from_config cfg =
      let command = trim_text cfg.command in
      let prefix = prefix_or_default cfg.env_prefix in
      do
        fail_if (command == "") (plain "KES signer command is required")
        fail_if (has_control (codes command))
            (plain "KES signer command contains invalid characters")
        fail_if (not (is_abs (codes command))) (plain "KES signer command must be an absolute path")
        fail_if (params_missing cfg.network)
            (plain "network params: start and slotsPerKESPeriod are required")
        cert ← load_operational_certificate k cfg.operational_certificate_path
        fail_if (not (valid_env_prefix (codes prefix))) (
            plain
              "external KES signer env prefix must contain only uppercase letters, digits, or underscores")
        ok (record {
          command = command;
          op_cert_path = cfg.operational_certificate_path;
          timeout = timeout_or_default cfg.timeout;
          network = cfg.network;
          op_cert = cert;
          env_prefix = prefix;
        })

  -- `NewExternalKESSigner` and `NewExternalKESSignerWithClock`
  unfoldable pub new_external_kes_signer :
      String → String → NetworkParams → Duration → Result ExternalKesSigner
  new_external_kes_signer command op_cert_path params timeout =
      new_external_kes_signer_from_config (record {
        command = command;
        operational_certificate_path = op_cert_path;
        network = params;
        timeout = timeout;
        env_prefix = "";
      })

  -- `(*ExternalKESSigner).CurrentPeriod`
  unfoldable pub external_current_period : ExternalKesSigner → Time → Result ℕ
  external_current_period s now = current_relative_period_for k s.network s.op_cert now

  -- `(*ExternalKESSigner).SignAt`
  unfoldable pub external_signer_sign_at :
      (HelperCall → HelperRun) → ExternalKesSigner → ℕ → Bytes → Result SignedKesPayload
  external_signer_sign_at run s period payload =
      external_sign_at k s.network s.op_cert
        (λ p bytes. helper_signature (run (helper_call s p bytes))) period payload

  -- `(*ExternalKESSigner).Sign`
  unfoldable pub external_signer_sign :
      (HelperCall → HelperRun) → ExternalKesSigner → Bytes → Time → Result SignedKesPayload
  external_signer_sign run s payload now = do
    period ← external_current_period s now
    external_signer_sign_at run s period payload

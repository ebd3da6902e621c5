-- ===== src/Tests/Formats.antt =====
-- Examples of what is shown of signing helpers and of certificates in CBOR.
use dmq_lib.Prelude.{◌≡◌, ◌↔◌, refl, [], ◌∷◌, ◌++◌, Bytes, arith}
use dmq_lib.Prelude.Int.{pos}
use dmq_lib.Errors.{ok, err, plain}
use dmq_lib.Encoding.{base64_encode}
use dmq_lib.Kes.{KesCrypto, KesSigningCertificate}
use dmq_lib.Kes.External.{
  ExternalKesSignerConfig, parse_external_kes_signature, new_external_kes_signer_from_config,
}
use dmq_lib.Kes.External.Signatures.{in_base64, parse_external_kes_signature-Prints}
use dmq_lib.Kes.External.Checked.{IsUsable, signer_of, new_external_kes_signer_from_config_iff}
use dmq_lib.Kes.Certificates.{Formats, uint64, int64, parse_operational_certificate_cbor}
use dmq_lib.Kes.Certificates.Layout.{
  Encodes, certificate_items, parse_operational_certificate_cbor_iff,
}
use dmq_lib.Tests.Keys.{toy_crypto, preview_params}

parse_external_kes_signature-Prints_example :
    parse_external_kes_signature ((32 ∷ []) ++ (base64_encode (171 ∷ 7 ∷ []) ++ 13 ∷ 10 ∷ []))
    ≡ ok (171 ∷ 7 ∷ [])
parse_external_kes_signature-Prints_example =
    parse_external_kes_signature-Prints (171 ∷ 7 ∷ []) (base64_encode (171 ∷ 7 ∷ [])) (32 ∷ [])
      (13 ∷ 10 ∷ []) (in_base64 (omega arith)) (omega arith) (λ e. cc e) (refl, tt)
      (refl, (refl, tt))

abbrev thirty_two : Bytes
thirty_two =
    1 ∷ 2 ∷ 3 ∷ 4 ∷ 5 ∷ 6 ∷ 7 ∷ 8 ∷ 1 ∷ 2 ∷ 3 ∷ 4 ∷ 5 ∷ 6 ∷ 7 ∷ 8 ∷ 1 ∷ 2 ∷ 3 ∷ 4 ∷ 5 ∷ 6 ∷ 7 ∷ 8
    ∷ 1 ∷ 2 ∷ 3 ∷ 4 ∷ 5 ∷ 6 ∷ 7 ∷ 8 ∷ []

abbrev valid_certificate : KesSigningCertificate
valid_certificate = record {
  kes_vkey = thirty_two;
  issue_number = 3;
  kes_period = 1;
  signature = thirty_two ++ thirty_two;
  cold_vkey = thirty_two;
}

-- A certificate file with that certificate.
abbrev file_crypto : KesCrypto
file_crypto = record toy_crypto {
  load_key_from_file = λ path. ok (record {
    skey = [];
    vkey = thirty_two;
    op_cert_cold_vkey = thirty_two;
    op_cert_signature = thirty_two ++ thirty_two;
    op_cert_issue_number = 3;
    op_cert_kes_period = 1;
  });
}

abbrev helper_config : ExternalKesSignerConfig
helper_config = record {
  command = " /usr/bin/sign\n";
  operational_certificate_path = "node.cert";
  network = preview_params;
  timeout = pos 0;
  env_prefix = "";
}

new_external_kes_signer_from_config_iff_example :
    (new_external_kes_signer_from_config file_crypto helper_config
      ≡ ok (signer_of file_crypto helper_config valid_certificate))
    ↔ ((cert : KesSigningCertificate) × (IsUsable file_crypto helper_config cert
          × (signer_of file_crypto helper_config valid_certificate
              ≡ signer_of file_crypto helper_config cert)))
new_external_kes_signer_from_config_iff_example =
    new_external_kes_signer_from_config_iff file_crypto helper_config
      (signer_of file_crypto helper_config valid_certificate)

-- A decoder that gives the items of the certificate, with one count as a signed number.
abbrev one_format : Formats
one_format = record {
  read_file = λ path. err (plain "no files");
  unmarshal = λ raw. err (plain "no JSON");
  decode = λ bytes. ok (certificate_items valid_certificate (uint64 3) (int64 (pos 1)));
  blake2b_224 = λ bytes. ok bytes;
}

parse_operational_certificate_cbor_iff_example :
    (parse_operational_certificate_cbor one_format (130 ∷ []) ≡ ok valid_certificate)
    ↔ Encodes one_format (130 ∷ []) valid_certificate
parse_operational_certificate_cbor_iff_example =
    parse_operational_certificate_cbor_iff one_format (130 ∷ []) valid_certificate

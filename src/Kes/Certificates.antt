-- ===== src/Kes/Certificates.antt =====
-- kes_payload.go: text envelopes, operational certificates in CBOR, and pool IDs. Files, JSON, CBOR
-- and Blake2b are what other packages make of them, the parameter `Formats`.
pub mod Layout
use dmq_lib.Prelude.{
  ℕ, ◌≡◌, ◌↔◌, ◌⊎◌, inl, inr, refl, String, Bool, true, false, not, List, [], ◌∷◌, ◌==◌, nat_eq,
  length, arith, Bytes,
}
use dmq_lib.Prelude.Int.{ℤ, pos, negsuc}
use dmq_lib.Errors.{Result, ok, err, plain, fail_if, ◌>>=◌, ◌>>◌}
use dmq_lib.Text.{codes}
use dmq_lib.Encoding.{hex_encode, hex_decode}
use dmq_lib.Cardano.{in_context}
use dmq_lib.Kes.{KesSigningCertificate, public_key_size, signature_size}

-- A value that `cbor.Decode` puts into an `any`, as far as the program tells them apart.
mutual
  pub data CborValue : Type 0 where
    uint64 : ℕ → CborValue
    int64 : ℤ → CborValue
    byte_string : Bytes → CborValue
    array : CborItems → CborValue
    other_value : CborValue

  pub data CborItems : Type 0 where
    nil : CborItems
    cons : CborValue → CborItems → CborItems

pub record TextEnvelope : Type 0 where
  pub kind : String
  pub description : String
  pub cbor_hex : String

-- `os.ReadFile`, `json.Unmarshal` into a text envelope, `cbor.Decode` into a slice, and blake2b-224
-- of some bytes, whose making may fail.
pub record Formats : Type 0 where
  pub read_file : String → Result Bytes
  pub unmarshal : Bytes → Result TextEnvelope
  pub decode : Bytes → Result CborItems
  pub blake2b_224 : Bytes → Result Bytes

-- v.([]any)
abbrev pub as_array : CborValue → Result CborItems
as_array (array items) = ok items
as_array _ = err (plain "op cert: first element not an array")

-- v, ok := v.([]byte); !ok || len(v) != size
abbrev pub as_bytes : ℕ → String → CborValue → Result Bytes
as_bytes size what (byte_string b) = fail_if (not (length b == size)) (plain what) >> ok b
as_bytes size what _ = err (plain what)

-- `readCBORUint`
unfoldable pub read_cbor_uint : CborValue → Result ℕ
read_cbor_uint (uint64 n) = ok n
read_cbor_uint (int64 (pos n)) = ok n
read_cbor_uint (int64 (negsuc n)) = err (plain "op cert: number negative")
read_cbor_uint _ = err (plain "op cert: number has unexpected type")

abbrev pub two_items : CborItems → Result (CborValue × CborValue)
two_items (cons a (cons b nil)) = ok (a, b)
two_items _ = err (plain "op cert outer: want 2 elements")

-- The elements of the certificate: the two keys, the two numbers and the signature.
pub record CertificateParts : Type 0 where
  pub cold : CborValue
  pub kes : CborValue
  pub issue : CborValue
  pub period : CborValue
  pub sig : CborValue

abbrev pub four_items : CborValue → CborItems → Result CertificateParts
four_items cold (cons a (cons b (cons c (cons d nil)))) =
    ok (record { cold = cold; kes = a; issue = b; period = c; sig = d })
four_items cold _ = err (plain "op cert inner: want 4 elements")

abbrev pub inner_parts : CborValue × CborValue → Result CertificateParts
inner_parts (first, second) = as_array first >>= four_items second

-- The checks of the elements, in order.
abbrev pub certificate_of :
    Result Bytes → Result Bytes → Result ℕ → Result ℕ → Result Bytes → Result KesSigningCertificate
certificate_of cold_vkey kes_vkey issue_number kes_period signature = do
  cold ← cold_vkey
  kes ← kes_vkey
  issue ← issue_number
  period ← kes_period
  sig ← signature
  ok (record {
    kes_vkey = kes;
    issue_number = issue;
    kes_period = period;
    signature = sig;
    cold_vkey = cold;
  })

unfoldable pub check_parts : CertificateParts → Result KesSigningCertificate
check_parts p =
    certificate_of (as_bytes public_key_size "op cert: cold_vkey not 32 bytes" p.cold)
      (as_bytes public_key_size "op cert: kes_vkey not 32 bytes" p.kes) (read_cbor_uint p.issue)
      (read_cbor_uint p.period)
      (as_bytes signature_size "op cert: cold-key signature not 64 bytes" p.sig)

module _ (f : Formats) where
  -- `ReadTextEnvelope`
  unfoldable pub read_text_envelope : String → Result (Bytes × String)
  read_text_envelope path = do
    raw ← in_context "read" (f.read_file path)
    env ← in_context "parse text-envelope" (f.unmarshal raw)
    cbor_data ← in_context "decode cborHex" (hex_decode (codes env.cbor_hex))
    ok (cbor_data, env.kind)

  -- `ParseOperationalCertificateCBOR`
  unfoldable pub parse_operational_certificate_cbor : Bytes → Result KesSigningCertificate
  parse_operational_certificate_cbor bytes =
      in_context "decode op cert cbor" (f.decode bytes) >>= λ outer.
      two_items outer >>= inner_parts >>= check_parts

  -- `PoolIDFromColdKey`; the text is its characters.
  unfoldable pub pool_id_from_cold_key : Bytes → Result (List ℕ)
  pool_id_from_cold_key cold_vkey = do
    fail_if (not (length cold_vkey == public_key_size)) (plain "cold_vkey size")
    hash ← in_context "blake2b-224" (f.blake2b_224 cold_vkey)
    ok (hex_encode hash)

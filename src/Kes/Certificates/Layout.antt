-- ===== src/Kes/Certificates/Layout.antt =====
-- The layout of an operational certificate that kes_payload.go reads.
use dmq_lib.Prelude.{ℕ, ◌≡◌, ◌↔◌, ◌⊎◌, inl, inr, refl, String, ==_iff, nat_eq, length, arith, Bytes}
use dmq_lib.Prelude.Int.{pos, negsuc}
use dmq_lib.Errors.{Result, ok, err, ◌>>=◌, bind_ok}
use dmq_lib.Cardano.{in_context, in_context_ok}
use dmq_lib.Kes.{KesSigningCertificate, public_key_size, signature_size}
use dmq_lib.Kes.Certificates.{
  CborValue, CborItems, uint64, int64, byte_string, array, other_value, nil, cons, Formats,
  as_array, as_bytes, CertificateParts, inner_parts, certificate_of, check_parts, two_items,
  four_items, read_cbor_uint, parse_operational_certificate_cbor,
}

-- A CBOR number that stands for a count, in either of the types that it may decode to.
abbrev pub Counts : CborValue → ℕ → Type 0
Counts v n = (v ≡ uint64 n) ⊎ (v ≡ int64 (pos n))

read_cbor_uint_ok : (v : CborValue) (n : ℕ) → read_cbor_uint v ≡ ok n → Counts v n
unfolding read_cbor_uint
read_cbor_uint_ok (uint64 m) n h = inl (cc h)
read_cbor_uint_ok (int64 (pos m)) n h = inr (cc h)
read_cbor_uint_ok (int64 (negsuc m)) n h = cc h
read_cbor_uint_ok (byte_string b) n h = cc h
read_cbor_uint_ok (array items) n h = cc h
read_cbor_uint_ok other_value n h = cc h

read_cbor_uint-Counts : (v : CborValue) (n : ℕ) → Counts v n → read_cbor_uint v ≡ ok n
unfolding read_cbor_uint
read_cbor_uint-Counts v n (inl e) = rw e refl
read_cbor_uint-Counts v n (inr e) = rw e refl

as_array_ok : (v : CborValue) (items : CborItems) → as_array v ≡ ok items → v ≡ array items
as_array_ok (array i) items h = cc h
as_array_ok (uint64 m) items h = cc h
as_array_ok (int64 z) items h = cc h
as_array_ok (byte_string b) items h = cc h
as_array_ok other_value items h = cc h

as_bytes_ok :
    (size : ℕ) (what : String) (v : CborValue) (b : Bytes)
    → as_bytes size what v ≡ ok b
    → (v ≡ byte_string b) × (length b ≡ size)
as_bytes_ok size what (byte_string c) b h = ground (arith, h)
as_bytes_ok size what (uint64 m) b h = cc h
as_bytes_ok size what (int64 z) b h = cc h
as_bytes_ok size what (array i) b h = cc h
as_bytes_ok size what other_value b h = cc h

two_items_ok : (o : CborItems) (a b : CborValue) → two_items o ≡ ok (a, b) → o ≡ cons a (cons b nil)
two_items_ok nil a b h = cc h
two_items_ok (cons x nil) a b h = cc h
two_items_ok (cons x (cons y nil)) a b h = cc h
two_items_ok (cons x (cons y (cons z r))) a b h = cc h

four_items_ok :
    (cold : CborValue) (o : CborItems) (p : CertificateParts)
    → four_items cold o ≡ ok p
    → (o ≡ cons p.kes (cons p.issue (cons p.period (cons p.sig nil)))) × (cold ≡ p.cold)
four_items_ok cold nil p h = cc h
four_items_ok cold (cons x nil) p h = cc h
four_items_ok cold (cons x (cons y nil)) p h = cc h
four_items_ok cold (cons x (cons y (cons z nil))) p h = cc h
four_items_ok cold (cons x (cons y (cons z (cons u nil)))) p h = ground (arith, h)
four_items_ok cold (cons x (cons y (cons z (cons u (cons v r))))) p h = cc h

-- Where every check passes, each gave its part of the certificate.
certificate_of_ok :
    (cold kes : Result Bytes) (issue period : Result ℕ) (sig : Result Bytes)
    (cert : KesSigningCertificate)
    → certificate_of cold kes issue period sig ≡ ok cert
    → (cold ≡ ok cert.cold_vkey)
      × ((kes ≡ ok cert.kes_vkey)
          × ((issue ≡ ok cert.issue_number)
              × ((period ≡ ok cert.kes_period) × (sig ≡ ok cert.signature))))
certificate_of_ok (err e) kes issue period sig cert h = cc h
certificate_of_ok (ok a) (err e) issue period sig cert h = cc h
certificate_of_ok (ok a) (ok b) (err e) period sig cert h = cc h
certificate_of_ok (ok a) (ok b) (ok c) (err e) sig cert h = cc h
certificate_of_ok (ok a) (ok b) (ok c) (ok d) (err e) cert h = cc h
certificate_of_ok (ok a) (ok b) (ok c) (ok d) (ok s) cert h = ground (arith, h)

-- [[kes_vkey, issue_number, kes_period, signature], cold_vkey]
abbrev pub certificate_items : KesSigningCertificate → CborValue → CborValue → CborItems
certificate_items cert issue period =
    cons
      (array (
        cons (byte_string cert.kes_vkey)
          (cons issue (cons period (cons (byte_string cert.signature) nil)))))
      (cons (byte_string cert.cold_vkey) nil)

-- The bytes decode to the certificate, with its sizes and its numbers in order.
pub record Encodes (f : Formats) (bytes : Bytes) (cert : KesSigningCertificate) : Type 0 where
  pub issue : CborValue
  pub period : CborValue
  pub decoded : f.decode bytes ≡ ok (certificate_items cert issue period)
  pub issue_counts : Counts issue cert.issue_number
  pub period_counts : Counts period cert.kes_period
  pub kes_size : length cert.kes_vkey ≡ public_key_size
  pub cold_size : length cert.cold_vkey ≡ public_key_size
  pub signature_fits : length cert.signature ≡ signature_size

fitting :
    (size : ℕ) (what : String) (b : Bytes)
    → length b ≡ size
    → as_bytes size what (byte_string b) ≡ ok b
fitting size what b h = rw ((==_iff (length b) size).1 h) refl

module _ (f : Formats) (bytes : Bytes) (cert : KesSigningCertificate) where
  encoded : parse_operational_certificate_cbor f bytes ≡ ok cert → Encodes f bytes cert
  unfolding parse_operational_certificate_cbor check_parts
  encoded h =
      let (outer, (decoded, r)) =
        bind_ok (in_context "decode op cert cbor" (f.decode bytes))
          (λ outer. two_items outer >>= inner_parts >>= check_parts) cert h in
      let (parts, (q, checks)) = bind_ok (two_items outer >>= inner_parts) check_parts cert r in
      let ((first, second), (two, inner)) = bind_ok (two_items outer) inner_parts parts q in
      let (items, (list, four)) = bind_ok (as_array first) (four_items second) parts inner in
      let (c, (k, (i, (p, s)))) = certificate_of_ok _ _ _ _ _ cert checks in
      let (o, cold) = four_items_ok second items parts four in
      let (kc, cold_fits) = as_bytes_ok _ _ parts.cold cert.cold_vkey c in
      let (kk, kes_fits) = as_bytes_ok _ _ parts.kes cert.kes_vkey k in
      let (ks, sig_fits) = as_bytes_ok _ _ parts.sig cert.signature s in
      record {
        issue = parts.issue;
        period = parts.period;
        decoded = cc (
          in_context_ok _ (f.decode bytes) outer decoded,
          two_items_ok outer first second two,
          as_array_ok first items list,
          o,
          cold,
          kc,
          kk,
          ks,
        );
        issue_counts = read_cbor_uint_ok parts.issue cert.issue_number i;
        period_counts = read_cbor_uint_ok parts.period cert.kes_period p;
        kes_size = kes_fits;
        cold_size = cold_fits;
        signature_fits = sig_fits;
      }

  parsed : Encodes f bytes cert → parse_operational_certificate_cbor f bytes ≡ ok cert
  unfolding parse_operational_certificate_cbor check_parts
  parsed e =
      rw
        (
          e.decoded,
          fitting public_key_size "op cert: cold_vkey not 32 bytes" cert.cold_vkey e.cold_size,
          fitting public_key_size "op cert: kes_vkey not 32 bytes" cert.kes_vkey e.kes_size,
          read_cbor_uint-Counts e.issue cert.issue_number e.issue_counts,
          read_cbor_uint-Counts e.period cert.kes_period e.period_counts,
          fitting signature_size "op cert: cold-key signature not 64 bytes" cert.signature
              e.signature_fits,
        )
        refl

-- The parser gives a certificate exactly where the bytes are CBOR for a list of two, whose first is the
-- list of the KES key, the two numbers and the signature, and whose second is the cold key, with
-- keys of 32 bytes, a signature of 64, and numbers that are not negative.
pub parse_operational_certificate_cbor_iff :
    (f : Formats) (bytes : Bytes) (cert : KesSigningCertificate)
    → (parse_operational_certificate_cbor f bytes ≡ ok cert) ↔ Encodes f bytes cert
parse_operational_certificate_cbor_iff f bytes cert = (encoded f bytes cert, parsed f bytes cert)

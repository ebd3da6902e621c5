-- ===== src/Sharing/Signers.antt =====
-- signer.go and kes_payload.go: what the signers hand out of their certificates. A nil signer is
-- `none`.
use dmq_lib.Prelude.{ℕ, ◌≡◌, Option, none, some, Bytes, nat_eq}
use dmq_lib.Sharing.{
  Heap, Slice, read, clone_bytes, SharedCertificate, clone_operational_certificate,
}
use dmq_lib.Sharing.Copies.{
  Extends-trans, IsBelow, IsFresh, IsCopy-later, clone_bytes-IsCopy, clone_bytes_later,
  read-Extends,
}

pub record SharedFileSigner : Type 0 where
  pub kes_v_key : Slice
  pub op_cert : SharedCertificate
  pub cold_v_key : Slice

-- The methods `KESVerificationKey`, `OperationalCertificate` and `ColdVerificationKey`.
unfoldable pub kes_verification_key_of : Heap → SharedFileSigner → Heap × Slice
kes_verification_key_of h s = clone_bytes h s.kes_v_key

unfoldable pub operational_certificate_of : Heap → SharedFileSigner → Heap × SharedCertificate
operational_certificate_of h s = clone_operational_certificate h s.op_cert

unfoldable pub cold_verification_key_of : Heap → SharedFileSigner → Heap × Slice
cold_verification_key_of h s = clone_bytes h s.cold_v_key

pub record SharedKesCertificate : Type 0 where
  pub kes_v_key : Slice
  pub issue_number : ℕ
  pub kes_period : ℕ
  pub signature : Slice
  pub cold_v_key : Slice

abbrev pub zero_kes_certificate : SharedKesCertificate
zero_kes_certificate = record {
  kes_v_key = none;
  issue_number = 0;
  kes_period = 0;
  signature = none;
  cold_v_key = none;
}

unfoldable pub clone_kes_signing_certificate :
    Heap → SharedKesCertificate → Heap × SharedKesCertificate
clone_kes_signing_certificate h c =
    let (h1, key) = clone_bytes h c.kes_v_key in
    let (h2, signature) = clone_bytes h1 c.signature in
    let (h3, cold) = clone_bytes h2 c.cold_v_key in
    (h3, record c { kes_v_key = key; signature = signature; cold_v_key = cold })

-- `OperationalCertificate` of a KES signer, with the key in memory or outside.
unfoldable pub kes_operational_certificate :
    Heap → Option SharedKesCertificate → Heap × SharedKesCertificate
kes_operational_certificate h none = (h, zero_kes_certificate)
kes_operational_certificate h (some c) = clone_kes_signing_certificate h c

-- What the slices of a certificate show.
abbrev pub kes_certificate_reads : Heap → SharedKesCertificate → Bytes × Bytes × Bytes
kes_certificate_reads h c = (read h c.kes_v_key, read h c.signature, read h c.cold_v_key)

abbrev pub OnCertificate : (Slice → Type 0) → SharedKesCertificate → Type 0
OnCertificate P c = P c.kes_v_key × P c.signature × P c.cold_v_key

-- The certificate handed out stands in new arrays, and shows what the signer's shows; the signer's
-- shows the same as before.
pub kes_operational_certificate_lem :
    (h : Heap) (c : SharedKesCertificate)
    → OnCertificate (IsBelow h.next) c
    → let (k, copy) = kes_operational_certificate h (some c) in
      OnCertificate (IsFresh h.next k.next) copy
      × (kes_certificate_reads k copy ≡ kes_certificate_reads h c)
      × (kes_certificate_reads k c ≡ kes_certificate_reads h c)
unfolding kes_operational_certificate clone_kes_signing_certificate
kes_operational_certificate_lem h c b =
    let (h1, key) = clone_bytes h c.kes_v_key in
    let c1 = clone_bytes-IsCopy h c.kes_v_key in
    let (h2, signature) = clone_bytes h1 c.signature in
    let c2 = clone_bytes_later h h1 c.signature c1.extends b.1 in
    let (h3, cold) = clone_bytes h2 c.cold_v_key in
    let c3 = clone_bytes_later h h2 c.cold_v_key c2.extends b.2 in
    let e2 = (clone_bytes-IsCopy h2 c.cold_v_key).extends in
    let e1 = Extends-trans h1 h2 h3 (clone_bytes-IsCopy h1 c.signature).extends e2 in
    let d1 = IsCopy-later h h1 h3 c.kes_v_key key c1 e1 in
    let d2 = IsCopy-later h h2 h3 c.signature signature c2 e2 in
    (
      (d1.fresh, d2.fresh, c3.fresh),
      cc (d1.same, d2.same, c3.same),
      cc (
        read-Extends h h3 c.kes_v_key c3.extends b.0,
        read-Extends h h3 c.signature c3.extends b.1,
        read-Extends h h3 c.cold_v_key c3.extends b.2,
      ),
    )

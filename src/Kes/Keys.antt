-- ===== src/Kes/Keys.antt =====
-- Messages that the signers make, and `Verify` of signer.go.
use mathlib.Core.Path.{subst}
use dmq_lib.Prelude.{
  Eq, ℕ, zero, suc, ◌+◌, ◌-◌, ◌%◌, ◌^◌, ◌≤◌, ◌<◌, ◌≡◌, refl, sym, ◌∙◌, ap, String, Bool, true,
  false, not, Option, none, some, Bytes, ltb, ◌==◌, ==_iff, nat_eq, bytes_eq, arith, if_cases,
}
use dmq_lib.Errors.{Error, Result, ok, result_cases, bind_ok, guard_ok}
use dmq_lib.Time.{Time}
use dmq_lib.Cardano.{NetworkParams, in_context, in_context_ok}
use dmq_lib.Wire.{DmqMessage, DmqMessagePayload}
use dmq_lib.Kes.{
  KesCrypto, IsKesCrypto, SecretKey, KesSigningCertificate, SignedKesPayload, relative_kes_period,
  payload_signing_bytes, validate_relative_kes_period_for_network,
}
use dmq_lib.Kes.Signers.{
  FileSigner, advance, evolve_to_relative_period, file_current_kes_period, file_sign_with,
  file_sign, verify,
}
use dmq_lib.Kes.Evolution.{advance-Moved}
use dmq_lib.Kes.Providers.{KesSigningProvider, provider_sign, external_sign_at, external_provider}

matched {ℓ} : {A : Type ℓ} ⦃e : Eq A⦄ (x y : A) → not (x == y) ≡ false → x ≡ y
matched x y h = ground (arith, ==_iff x y, h)

-- Where the sum of the periods fits in 64 bits, it gives the relative period back.
restored :
    (start relative : ℕ)
    → start < 2 ^ 64
    → ltb (2 ^ 64 - 1 - start) relative ≡ false
    → relative_kes_period ((start + relative) % 2 ^ 64) start ≡ ok relative
unfolding relative_kes_period
restored start relative b h = ground (arith, b, h)

subst2 {ℓ κ ι} :
    {A : Type ℓ} {B : Type κ} (P : A → B → Type ι) {a a' : A} {b b' : B}
    → a ≡ a'
    → b ≡ b'
    → P a b
    → P a' b'
subst2 P {a' = a'} {b = b} e f p = subst (λ y. P a' y) f (subst (λ x. P x b) e p)

pub ok_inj {ℓ} : {A : Type ℓ} {a b : A} → ok a ≡ ok b → a ≡ b
ok_inj e = cc

pub not-false : (b : Bool) → not b ≡ false → b ≡ true
not-false true h = refl
not-false false h = cc

-- How KES keys and their verification keys hang together: an update keeps the pair, and a signature
-- with the key of a period verifies at that period.
pub record IsPairing (k : KesCrypto) (Pairs : SecretKey → Bytes → Type 0) : Type 0 where
  pub kept :
      (key next : SecretKey) (vkey : Bytes)
      → k.update key ≡ ok next
      → Pairs key vkey
      → Pairs next vkey
  pub verifies :
      (key : SecretKey) (vkey bytes signature : Bytes)
      → Pairs key vkey
      → k.sign key key.period bytes ≡ ok signature
      → k.verify_signed vkey key.period bytes signature ≡ true

module _ (k : KesCrypto) (law : IsKesCrypto k) where
  -- A message before its ID is computed, and what `Verify` says of it afterwards.
  verify_identified :
      (m msg : DmqMessage) (bytes : Bytes) (relative : ℕ)
      → k.set_computed_message_id m ≡ ok msg
      → payload_signing_bytes k m.payload ≡ ok bytes
      → relative_kes_period m.payload.kes_period m.operational_certificate.kes_period ≡ ok relative
      → k.verify_signed m.operational_certificate.kes_verification_key relative bytes
          m.kes_signature
        ≡ true
      → verify k (some msg) ≡ ok true
  unfolding verify payload_signing_bytes
  verify_identified m msg bytes relative i b r v = rw (law.identified m msg i, b, r, v) refl

  -- What a provider's signature is worth: it verifies under the key it comes with.
  abbrev pub IsHonest : KesSigningProvider → Type 0
  IsHonest provider =
      (relative : ℕ) (bytes : Bytes) (signed : SignedKesPayload)
      → provider.sign_at relative bytes ≡ ok signed
      → k.verify_signed signed.vkey signed.period bytes signed.signature ≡ true

  verify-provided :
      (provider : KesSigningProvider) (payload : DmqMessagePayload) (msg : DmqMessage)
      → IsHonest provider
      → provider.operational_certificate.kes_period < 2 ^ 64
      → provider_sign k (some provider) payload ≡ ok msg
      → verify k (some msg) ≡ ok true
  unfolding provider_sign relative_kes_period
  verify-provided provider payload msg honest bound e =
      let (unexpired, e1) = guard_ok _ _ _ msg e in
      let (relative, (period, e2)) = bind_ok provider.current_period _ msg e1 in
      let (fits, e3) = guard_ok _ _ _ msg e2 in
      let (bytes, (encoded, e4)) = bind_ok (payload_signing_bytes k _) _ msg e3 in
      let (signed, (made, e5)) =
        bind_ok (in_context "KES sign" (provider.sign_at relative bytes)) _ msg e4 in
      let (vkey, e6) = guard_ok _ _ _ msg e5 in
      let (same, e7) = guard_ok _ _ _ msg e6 in
      verify_identified _ msg bytes relative (in_context_ok "compute dmq message id" _ msg e7)
        encoded (restored provider.operational_certificate.kes_period relative bound fits)
        (subst2 (λ key p. k.verify_signed key p bytes signed.signature ≡ true) (matched _ _ vkey)
          (matched _ _ same)
          (honest relative bytes signed (in_context_ok "KES sign" _ signed made)))

  external_sign_at_verified :
      (network : NetworkParams) (cert : KesSigningCertificate) (helper : ℕ → Bytes → Result Bytes)
      (period : ℕ) (bytes : Bytes) (signed : SignedKesPayload)
      → external_sign_at k network cert helper period bytes ≡ ok signed
      → k.verify_signed signed.vkey signed.period bytes signed.signature ≡ true
  unfolding external_sign_at
  external_sign_at_verified network cert helper period bytes signed e =
      let (u, (valid, e1)) =
        bind_ok (validate_relative_kes_period_for_network k period network) _ signed e in
      let (signature, (helped, e2)) = bind_ok (helper period bytes) _ signed e1 in
      let (verified, e3) = guard_ok _ _ _ signed e2 in
      subst (λ (x : SignedKesPayload). k.verify_signed x.vkey x.period bytes x.signature ≡ true)
        (ok_inj e3) (not-false _ verified)

  evolve_ok :
      (key reached : SecretKey) (period : ℕ)
      → evolve_to_relative_period k key period ≡ ok reached
      → (key.period ≤ period)
        × (((advance k (period - key.period) "update KES key" key period).1 ≡ none)
            × ((advance k (period - key.period) "update KES key" key period).0 ≡ reached))
  unfolding evolve_to_relative_period
  evolve_ok key reached period e = ground (arith, e)

  module _ (Pairs : SecretKey → Bytes → Type 0) (pairing : IsPairing k Pairs) (vkey : Bytes) where
    advance-Pairs :
        (fuel : ℕ) (what : String) (key : SecretKey) (period : ℕ)
        → Pairs key vkey
        → Pairs (advance k fuel what key period).0 vkey
    unfolding advance
    advance-Pairs zero what key period h = h
    advance-Pairs (suc fuel) what key period h =
        let P : SecretKey × Option Error → Type 0 = λ r. Pairs r.0 vkey in
        if_cases P (ltb key.period period) _ _
          (λ _.
            result_cases P (k.update key) _ _ (λ e _. h)
              (λ next u. advance-Pairs fuel what next period (pairing.kept key next vkey u h)))
          (λ _. h)

    evolved :
        (key reached : SecretKey) (period : ℕ)
        → Pairs key vkey
        → evolve_to_relative_period k key period ≡ ok reached
        → Pairs reached vkey × (reached.period ≡ period)
    evolved key reached period h e =
        let r = evolve_ok key reached period e in
        let m =
          advance-Moved k law (period - key.period) "update KES key" key period
            (omega (arith, r.0)) in
        let a = advance-Pairs (period - key.period) "update KES key" key period h in
        (
          subst (λ x. Pairs x vkey) r.1.1 a,
          ap (λ (x : SecretKey). x.period) (sym r.1.1) ∙ m.reached r.1.0,
        )

  module _ (Pairs : SecretKey → Bytes → Type 0) (pairing : IsPairing k Pairs) (s : FileSigner) where
    file_sign_with-verify :
        (key : SecretKey) (relative : ℕ) (payload : DmqMessagePayload) (msg : DmqMessage)
        → Pairs key s.op_cert.kes_verification_key
        → key.period ≡ relative
        → relative_kes_period payload.kes_period s.op_cert.kes_period ≡ ok relative
        → file_sign_with k s key relative payload ≡ ok msg
        → verify k (some msg) ≡ ok true
    unfolding file_sign_with
    file_sign_with-verify key relative payload msg h same r e =
        let vkey = s.op_cert.kes_verification_key in
        let (bytes, (encoded, e1)) = bind_ok (payload_signing_bytes k payload) _ msg e in
        let (signature, (signed, e2)) =
          bind_ok (in_context "KES sign" (k.sign key relative bytes)) _ msg e1 in
        let made = in_context_ok "KES sign" _ signature signed in
        verify_identified _ msg bytes relative e2 encoded r (
          subst (λ p. k.verify_signed vkey p bytes signature ≡ true) same
            (pairing.verifies key vkey bytes signature h
              (subst (λ p. k.sign key p bytes ≡ ok signature) (sym same) made)))

    signed_verifies :
        (payload : DmqMessagePayload) (now : Time) (msg : DmqMessage)
        → Pairs s.kes_skey s.op_cert.kes_verification_key
        → (file_sign k s payload now).1 ≡ ok msg
        → (verify k (some msg) ≡ ok true)
          × Pairs (file_sign k s payload now).0.kes_skey s.op_cert.kes_verification_key
    unfolding file_sign
    signed_verifies payload now msg h =
        let vkey = s.op_cert.kes_verification_key in
        let P : FileSigner × Result DmqMessage → Type 0 =
          λ r. r.1 ≡ ok msg → (verify k (some msg) ≡ ok true) × Pairs r.0.kes_skey vkey in
        result_cases P (file_current_kes_period k s payload now) _ _ (λ e _ x. cc)
          λ period _.
            if_cases P (payload.expires_at == 0) _ _ (λ _ x. cc)
              λ _.
                result_cases P (relative_kes_period period s.op_cert.kes_period) _ _ (λ e _ x. cc)
                  λ relative r.
                    result_cases P (evolve_to_relative_period k s.kes_skey relative) _ _
                      (λ e _ x. cc)
                      λ key v x.
                        let moved = evolved Pairs pairing vkey s.kes_skey key relative h v in
                        (file_sign_with-verify key relative _ msg moved.0 moved.1 r x, moved.0)

-- Every message that `FileSigner` signs, at whatever period, is one that its `Verify` accepts, and the
-- key that it evolved still belongs to the verification key of its certificate.
pub file_sign-verify :
    (k : KesCrypto) (law : IsKesCrypto k) (Pairs : SecretKey → Bytes → Type 0)
    (pairing : IsPairing k Pairs) (s : FileSigner) (payload : DmqMessagePayload) (now : Time)
    (msg : DmqMessage)
    → Pairs s.kes_skey s.op_cert.kes_verification_key
    → (file_sign k s payload now).1 ≡ ok msg
    → (verify k (some msg) ≡ ok true)
      × Pairs (file_sign k s payload now).0.kes_skey s.op_cert.kes_verification_key
file_sign-verify k law Pairs pairing s payload now msg h e =
    signed_verifies k law Pairs pairing s payload now msg h e

-- Every message that is signed with an external helper's provider is one that `Verify` accepts,
-- whatever the helper prints, with any key and any period: nothing is lost by the sum of the periods.
pub provider_sign-verify :
    (k : KesCrypto)
    → IsKesCrypto k
    → (network : NetworkParams) (cert : KesSigningCertificate) (helper : ℕ → Bytes → Result Bytes)
      (relative : Result ℕ) (payload : DmqMessagePayload) (msg : DmqMessage)
    → cert.kes_period < 2 ^ 64
    → provider_sign k (some (external_provider k network cert helper relative)) payload ≡ ok msg
    → verify k (some msg) ≡ ok true
provider_sign-verify k law network cert helper relative payload msg bound e =
    verify-provided k law (external_provider k network cert helper relative) payload msg
      (external_sign_at_verified k law network cert helper) bound e

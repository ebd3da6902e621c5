-- ===== src/Kes/Validity.antt =====
-- The validity window of an operational certificate in kes_payload.go.
use mathlib.Core.Path.{subst}
use dmq_lib.Prelude.{
  ℕ, ◌+◌, ◌-◌, ◌*◌, ◌/◌, ◌%◌, ◌^◌, ◌≤◌, ◌<◌, ◌≡◌, ◌⊎◌, ◌↔◌, ◌∙◌, ap, sym, leb, ltb, arith,
}
use dmq_lib.Prelude.Int.{pos, ◌≤ℤ◌}
use dmq_lib.Errors.{Result, ok, err, bind_ok, guard_ok}
use dmq_lib.Kes.Keys.{ok_inj}
use dmq_lib.Time.{Time}
use dmq_lib.Cardano.{NetworkParams, current_kes_period_for, kes_period_start, slot_length_or_second}
use dmq_lib.Cardano.Periods.{kes_period_start-current, low_word}
use dmq_lib.Kes.{
  KesCrypto, KesSigningCertificate, OperationalCredentialStatus, crypto_max_kes_evolutions,
  effective_max_kes_evolutions, validate_relative_kes_period_for_network,
  current_relative_period_for, credential_status,
}

abbrev pub relative_of : Result OperationalCredentialStatus → Result ℕ
relative_of (ok status) = ok status.relative_kes_period
relative_of (err e) = err e

-- The relative period is the current one of the certificate, and within the network's limit, where
-- it has one, and the key's.
pub record IsCurrent (k : KesCrypto) (cert : KesSigningCertificate) (params : NetworkParams)
    (now : Time) (r : ℕ) : Type 0 where
  pub absolute : ℕ
  pub current : current_kes_period_for params now ≡ ok absolute
  pub begun : cert.kes_period ≤ absolute
  pub relative : r ≡ absolute - cert.kes_period
  pub of_key : r < crypto_max_kes_evolutions k.kes_depth
  pub of_network : (params.max_kes_evolutions ≡ 0) ⊎ (r < params.max_kes_evolutions)

limit_iff :
    (params : NetworkParams) (depth r : ℕ)
    → (r < effective_max_kes_evolutions params depth) ↔ (
        (r < crypto_max_kes_evolutions depth)
        × ((params.max_kes_evolutions ≡ 0) ⊎ (r < params.max_kes_evolutions)))
unfolding effective_max_kes_evolutions
limit_iff params depth r = (λ h. ground (arith, h), λ h. ground (arith, h.0, h.1))

IsCurrent-iff :
    (k : KesCrypto) (cert : KesSigningCertificate) (params : NetworkParams) (now : Time) (r : ℕ)
    → (current_relative_period_for k params cert now ≡ ok r) ↔ IsCurrent k cert params now r
unfolding current_relative_period_for validate_relative_kes_period_for_network
IsCurrent-iff k cert params now r = (
  λ h.
      let (absolute, (current, h1)) = bind_ok (current_kes_period_for params now) _ r h in
      let (begun, h2) = guard_ok (ltb absolute cert.kes_period) _ _ r h1 in
      let (limited, h3) =
        guard_ok
          (leb (effective_max_kes_evolutions params k.kes_depth) (absolute - cert.kes_period)) _ _ r
          h2 in
      let same : absolute - cert.kes_period ≡ r = ok_inj h3 in
      let within = (limit_iff params k.kes_depth r).0 (ground (arith, limited, same)) in
      record {
        absolute = absolute;
        current = current;
        begun = ground (arith, begun);
        relative = sym same;
        of_key = within.0;
        of_network = within.1;
      },
  λ c.
      let within = (limit_iff params k.kes_depth r).1 (c.of_key, c.of_network) in
      rw c.current (ground (arith, c.begun, c.relative, within)),
)

-- A certificate has a status exactly where its current relative period, the network's less that of
-- the certificate, is not negative and within the limits of the network and of the key: the status
-- has that relative period. `CurrentPeriod` of a signer with the certificate has the same answers,
-- errors included.
pub credential_status-relative :
    (k : KesCrypto) (cert : KesSigningCertificate) (params : NetworkParams) (now : Time) (r : ℕ)
    → (relative_of (credential_status k cert params now)
        ≡ current_relative_period_for k params cert now)
      × ((relative_of (credential_status k cert params now) ≡ ok r) ↔ IsCurrent k cert params now r)
unfolding credential_status current_relative_period_for validate_relative_kes_period_for_network
credential_status-relative k cert params now r =
    let same : relative_of (credential_status k cert params now)
        ≡ current_relative_period_for k params cert now =
      ground arith in
    let iff = IsCurrent-iff k cert params now r in
    (same, (λ h. iff.0 (sym same ∙ h), λ c. same ∙ iff.1 c))

status_fields :
    (k : KesCrypto) (cert : KesSigningCertificate) (params : NetworkParams) (now : Time)
    (absolute : ℕ) (status : OperationalCredentialStatus)
    → current_kes_period_for params now ≡ ok absolute
    → credential_status k cert params now ≡ ok status
    → (cert.kes_period ≤ absolute)
      × ((absolute < cert.kes_period + effective_max_kes_evolutions params k.kes_depth)
          × (status.expires_at
              ≡ kes_period_start params
                  ((cert.kes_period + effective_max_kes_evolutions params k.kes_depth) % 2 ^ 64)))
unfolding credential_status
status_fields k cert params now absolute status a e = ground (arith, a, e)

-- A status names an expiration that lies after the clock that it was computed at. The network starts
-- `s` nanoseconds after the epoch, has slots of `l` nanoseconds and periods of `slots` slots, and the
-- end of the certificate's window is a time that the program's words can hold.
pub status_before_expiry :
    (k : KesCrypto) (cert : KesSigningCertificate) (p : NetworkParams) (l s a slots d : ℕ)
    (status : OperationalCredentialStatus)
    → slot_length_or_second p.slot_length ≡ pos l
    → p.start ≡ pos s
    → p.absolute_start_slot ≡ a
    → p.slots_per_kes_period ≡ slots
    → 0 < slots
    → 0 < l
    → l < 2 ^ 63
    → d < 2 ^ 63
    → a + d / l < 2 ^ 64
    → (cert.kes_period + effective_max_kes_evolutions p k.kes_depth) < 2 ^ 64
    → (cert.kes_period + effective_max_kes_evolutions p k.kes_depth) * slots < 2 ^ 64
    → a ≤ (cert.kes_period + effective_max_kes_evolutions p k.kes_depth) * slots
    → ((cert.kes_period + effective_max_kes_evolutions p k.kes_depth) * slots - a) * l < 2 ^ 63
    → credential_status k cert p (pos (s + d)) ≡ ok status
    → ¬ (status.expires_at ≤ℤ pos (s + d))
status_before_expiry k cert p l s a slots d status e1 e2 e3 e4 h1 h2 h3 h4 h5 w b1 b2 b3 ok_status
      late =
    let end = cert.kes_period + effective_max_kes_evolutions p k.kes_depth in
    let c = kes_period_start-current p l s a slots e1 e2 e3 e4 h1 h2 end d b1 b2 b3 h3 h4 h5 in
    let f = status_fields k cert p (pos (s + d)) ((a + d / l) / slots) status c.0 ok_status in
    omega (
      arith,
      f.1.0,
      c.1.0 (subst (λ x. x ≤ℤ pos (s + d)) (f.1.1 ∙ ap (kes_period_start p) (low_word end w)) late),
    )

-- ===== src/Kes/Evolution.antt =====
-- The evolution of the key of `KESSigner`, and what it may still sign.
use dmq_lib.Prelude.{
  ℕ, zero, suc, ◌+◌, ◌-◌, ◌≤◌, ◌<◌, ◌≡◌, ◌≢◌, String, Option, none, List, [], ◌∷◌, Bytes, ltb,
  arith, if_cases, option_cases,
}
use dmq_lib.Errors.{Error, Result, ok, err, result_cases}
use dmq_lib.Cardano.{NetworkParams}
use dmq_lib.Kes.{
  KesCrypto, IsKesCrypto, SecretKey, SignedKesPayload, effective_max_kes_evolutions,
  validate_relative_kes_period_for_network,
}
use dmq_lib.Kes.Signers.{KesSigner, advance, advance_to, sign_at_locked, sign_run}

valid_relative :
    (k : KesCrypto) (period : ℕ) (network : NetworkParams) (u : Unit {0})
    → validate_relative_kes_period_for_network k period network ≡ ok u
    → period < effective_max_kes_evolutions network k.kes_depth
unfolding validate_relative_kes_period_for_network
valid_relative k period network u h = ground (arith, h)

module _ (k : KesCrypto) (law : IsKesCrypto k) where
  -- What the loop leaves, with the fuel that the program's callers give it: the period, or a key on
  -- the way to it and an error.
  pub record Moved (key : SecretKey) (period : ℕ) (r : SecretKey × Option Error) : Type 0 where
    pub reached : r.1 ≡ none → r.0.period ≡ period
    pub forward : key.period ≤ r.0.period

  pub advance-Moved :
      (fuel : ℕ) (what : String) (key : SecretKey) (period : ℕ)
      → key.period + fuel ≡ period
      → Moved key period (advance k fuel what key period)
  unfolding advance
  advance-Moved zero what key period h = record {
    reached = λ _. omega (arith, h);
    forward = omega arith;
  }
  advance-Moved (suc fuel) what key period h =
      if_cases (Moved key period) (ltb key.period period) _ _
        (λ _.
          result_cases (Moved key period) (k.update key) _ _
            (λ e _. record { reached = λ x. cc; forward = omega arith })
            (λ next u.
              let step = law.updated key next u in
              let m = advance-Moved fuel what next period (omega (arith, step, h)) in
              record { reached = m.reached; forward = omega (arith, m.forward, step) }))
        (λ b. record { reached = λ _. ground (arith, b, h); forward = omega arith })

  advance_to-Moved : (key : SecretKey) (period : ℕ) → Moved key period (advance_to k key period)
  unfolding advance_to
  advance_to-Moved key period =
      if_cases (Moved key period) (ltb period key.period) _ _
        (λ _. record { reached = λ x. cc; forward = omega arith })
        (λ b. advance-Moved (period - key.period) "advance KES key" key period (ground (arith, b)))

  pub record Signed (s : KesSigner) (period : ℕ) (payload : Bytes)
      (r : KesSigner × Result SignedKesPayload) : Type 0 where
    pub forward : s.kes_key.period ≤ r.0.kes_key.period
    pub made :
        (signed : SignedKesPayload)
        → r.1 ≡ ok signed
        → (r.0.kes_key.period ≡ period)
          × ((k.sign r.0.kes_key period payload ≡ ok signed.signature)
              × ((signed.period ≡ period)
                  × (period < effective_max_kes_evolutions s.network k.kes_depth)))

  unsigned :
      (s t : KesSigner) (period : ℕ) (payload : Bytes) (e : Error)
      → s.kes_key.period ≤ t.kes_key.period
      → Signed s period payload (t, err e)
  unsigned s t period payload e h = record { forward = h; made = λ signed x. cc }

  pub sign_at_locked-Signed :
      (s : KesSigner) (period : ℕ) (payload : Bytes)
      → Signed s period payload (sign_at_locked k s period payload)
  unfolding sign_at_locked
  sign_at_locked-Signed s period payload =
      let P : KesSigner × Result SignedKesPayload → Type 0 = Signed s period payload in
      let key = (advance_to k s.kes_key period).0 in
      let moved : KesSigner = record s { kes_key = key } in
      let m = advance_to-Moved s.kes_key period in
      result_cases P (validate_relative_kes_period_for_network k period s.network) _ _
        (λ e _. unsigned s s period payload e (omega arith))
        (λ _ v.
          option_cases P (advance_to k s.kes_key period).1 _ _
            (λ none_failed.
              result_cases P (k.sign key period payload) _ _
                (λ e _. unsigned s moved period payload _ m.forward)
                (λ signature made. record {
                  forward = m.forward;
                  made = λ signed x. (
                    m.reached none_failed,
                    (cc (made, x), (cc x, valid_relative k period s.network _ v)),
                  );
                }))
            (λ e _. unsigned s moved period payload e m.forward))

  sign_run-forward :
      (s : KesSigner) (calls : List (ℕ × Bytes))
      → s.kes_key.period ≤ (sign_run k s calls).kes_key.period
  unfolding sign_run
  sign_run-forward s [] = omega arith
  sign_run-forward s ((period, payload) ∷ calls) = omega (
    arith,
    (sign_at_locked-Signed s period payload).forward,
    sign_run-forward (sign_at_locked k s period payload).0 calls,
  )

-- A successful signature at a period is made with the key of that very period, which is below the
-- limit of the network and of the key.
pub signed_at_period :
    (k : KesCrypto)
    → IsKesCrypto k
    → (s : KesSigner) (period : ℕ) (payload : Bytes) (signed : SignedKesPayload)
    → (sign_at_locked k s period payload).1 ≡ ok signed
    → ((sign_at_locked k s period payload).0.kes_key.period ≡ period)
      × ((k.sign (sign_at_locked k s period payload).0.kes_key period payload ≡ ok signed.signature)
          × ((signed.period ≡ period)
              × (period < effective_max_kes_evolutions s.network k.kes_depth)))
signed_at_period k law s period payload signed e =
    (sign_at_locked-Signed k law s period payload).made signed e

-- After a signature at a period no signature at an earlier one is made, whatever is signed between:
-- keys evolve forward only.
pub no_earlier_signature :
    (k : KesCrypto) (law : IsKesCrypto k) (s : KesSigner) (period earlier : ℕ)
    (payload other : Bytes) (signed again : SignedKesPayload) (calls : List (ℕ × Bytes))
    → (sign_at_locked k s period payload).1 ≡ ok signed
    → earlier < period
    → (sign_at_locked k (sign_run k (sign_at_locked k s period payload).0 calls) earlier other).1
      ≢ ok again
no_earlier_signature k law s period earlier payload other signed again calls e h x =
    let s' = (sign_at_locked k s period payload).0 in
    let first = (sign_at_locked-Signed k law s period payload).made signed e in
    let later = sign_run k s' calls in
    let last = sign_at_locked-Signed k law later earlier other in
    omega (arith, h, first.0, sign_run-forward k law s' calls, last.forward, (last.made again x).0)

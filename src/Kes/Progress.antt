-- ===== src/Kes/Progress.antt =====
-- That the loops which evolve KES keys in kes_payload.go and signer.go come to their end.
use dmq_lib.Prelude.{
  ℕ, zero, suc, ◌+◌, ◌≤◌, ◌<◌, ◌≡◌, refl, String, Option, none, some, ltb, arith, Bool, true, false,
  if◌then◌else◌, sym, ◌∙◌,
}
use dmq_lib.Errors.{Error, Result, ok, err}
use dmq_lib.Kes.{KesCrypto, IsKesCrypto, SecretKey}
use dmq_lib.Kes.Signers.{advance}

module _ {ℓ} {A : Type ℓ} where
  same_branch :
      (b : Bool) (x y z : A) → (b ≡ true → x ≡ y) → (if b then x else z) ≡ (if b then y else z)
  same_branch true x y z h = h refl
  same_branch false x y z h = refl

  same_answer {κ} :
      {B : Type κ} (r : Result B) (f : Error → A) (g g' : B → A)
      → ((b : B) → r ≡ ok b → g b ≡ g' b)
      → ◌≡◌ {A = A} (elim r [ err e ↦ f e | ok b ↦ g b ]) (elim r [ err e ↦ f e | ok b ↦ g' b ])
  same_answer (err e) f g g' h = refl
  same_answer (ok b) f g g' h = h b refl

-- The keys of the periods up to one can be updated.
abbrev pub Updates : KesCrypto → ℕ → Type 0
Updates k period =
    (key : SecretKey) → key.period < period → (next : SecretKey) × (k.update key ≡ ok next)

module _ (k : KesCrypto) (law : IsKesCrypto k) where
  stays :
      (fuel : ℕ) (what : String) (key : SecretKey) (period : ℕ)
      → period ≤ key.period
      → advance k fuel what key period ≡ (key, none)
  unfolding advance
  stays zero what key period h = refl
  stays (suc fuel) what key period h = ground (arith, h)

  -- A loop that is given more rounds than there are periods to go does what it does without them.
  pub advance_settles :
      (fuel extra : ℕ) (what : String) (key : SecretKey) (period : ℕ)
      → period ≤ key.period + fuel
      → advance k (fuel + extra) what key period ≡ advance k fuel what key period
  unfolding advance
  advance_settles zero extra what key period h =
      stays (0 + extra) what key period (omega (arith, h))
      ∙ sym (stays 0 what key period (omega (arith, h)))
  advance_settles (suc fuel) extra what key period h =
      let e : suc fuel + extra ≡ suc (fuel + extra) = omega arith in
      rw e (
        same_branch (ltb key.period period) _ _ _ (λ _. same_answer (k.update key) _ _ _ (λ next u.
          advance_settles fuel extra what next period (omega (arith, h, law.updated key next u)))))

abbrev reached : SecretKey × Option Error → Result SecretKey
reached (key, failed) = elim failed [ some e ↦ err e | none ↦ ok key ]

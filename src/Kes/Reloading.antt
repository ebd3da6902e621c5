-- ===== src/Kes/Reloading.antt =====
-- reloading.go: `ReloadingSigner` and `ReloadingKESSigningProvider`, over what they reload. The factory
-- may be nil, and its answer is an argument of a reload; a value that is nil behind an interface is
-- none. The lock makes a swap and a reading of the active value one step each.
use dmq_lib.Prelude.{ℕ, String, Bool, true, Option, none, some, [], if◌then◌else◌, Bytes}
use dmq_lib.Text.{◌+s◌}
use dmq_lib.Errors.{Error, Result, ok, err, plain, sentinel, signer_required, ◌>>=◌}
use dmq_lib.Time.{Duration}
use dmq_lib.Wire.{DmqMessage, DmqMessagePayload}
use dmq_lib.Cardano.{NetworkParams}
use dmq_lib.Kes.{KesCrypto, KesSigningCertificate, SignedKesPayload}
use dmq_lib.Kes.Signers.{
  KesSigner, FileSigner, FileSignerConfig, new_file_signer, new_kes_signer_with_clock,
}
use dmq_lib.Kes.Providers.{KesSigningProvider, provider_sign}
use dmq_lib.Kes.External.{
  ExternalKesSignerConfig, ExternalKesSigner, new_external_kes_signer,
  new_external_kes_signer_from_config,
}

-- Which of the two wrappers it is; they differ in the texts of their errors.
pub data Wrapper : Type 0 where
  of_signer of_provider : Wrapper

abbrev role : Wrapper → String
role of_signer = "signer"
role of_provider = "KES signing provider"

abbrev made : Wrapper → String
made of_signer = "signer"
made of_provider = "provider"

pub record Reloading {ℓ} (S : Type ℓ) : Type ℓ where
  pub wrapper : Wrapper
  pub has_factory : Bool
  pub active : Option S

-- if err != nil { return err }; if isNilInterface(next) { … }; the swap.
unfoldable pub reload {ℓ} :
    {S : Type ℓ} → Reloading S → Result (Option S) → Reloading S × Option Error
reload s answer =
    if s.has_factory
    then elim answer [
      | err e ↦ (s, some e)
      | ok next ↦ elim next [
        | none ↦ (
          s,
          some (
              plain
                ("dmq reloading " +s role s.wrapper +s " factory returned nil " +s made s.wrapper)),
        )
        | some signer ↦ (record s { active = some signer }, none)
      ]
    ]
    else (s, some (plain ("dmq reloading " +s role s.wrapper +s " factory is required")))

-- What the two constructors do.
unfoldable pub new_reloading {ℓ} :
    {S : Type ℓ} → Wrapper → Bool → Result (Option S) → Result (Reloading S)
unfolding reload
new_reloading wrapper has_factory answer =
    let (s, failed) =
      reload (record { wrapper = wrapper; has_factory = has_factory; active = none }) answer in
    elim failed [ some e ↦ err e | none ↦ ok s ]

-- `NewReloadingSigner`
unfoldable pub new_reloading_signer {ℓ} :
    {S : Type ℓ} → Bool → Result (Option S) → Result (Reloading S)
new_reloading_signer has_factory answer = new_reloading of_signer has_factory answer

-- `NewReloadingKESSigningProvider`
unfoldable pub new_reloading_kes_signing_provider {ℓ} :
    {S : Type ℓ} → Bool → Result (Option S) → Result (Reloading S)
new_reloading_kes_signing_provider has_factory answer = new_reloading of_provider has_factory answer

-- The answer of a factory around a constructor that gives no nil.
abbrev made_by {ℓ} : {S : Type ℓ} → Result S → Result (Option S)
made_by answer = answer >>= λ s. ok (some s)

module _ (k : KesCrypto) where
  -- `NewReloadingFileSigner`
  pub new_reloading_file_signer : FileSignerConfig → Result (Reloading FileSigner)
  new_reloading_file_signer cfg = new_reloading_signer true (made_by (new_file_signer k cfg))

  -- `NewReloadingKESSigner` and `NewReloadingKESSignerWithClock`
  pub new_reloading_kes_signer : String → String → NetworkParams → Result (Reloading KesSigner)
  new_reloading_kes_signer kes_key_path op_cert_path params =
      new_reloading_kes_signing_provider true
        (made_by (new_kes_signer_with_clock k kes_key_path op_cert_path params))

  -- `NewReloadingExternalKESSignerFromConfig`
  pub new_reloading_external_kes_signer_from_config :
      ExternalKesSignerConfig → Result (Reloading ExternalKesSigner)
  new_reloading_external_kes_signer_from_config cfg =
      new_reloading_kes_signing_provider true (made_by (new_external_kes_signer_from_config k cfg))

  -- `NewReloadingExternalKESSigner` and `NewReloadingExternalKESSignerWithClock`
  pub new_reloading_external_kes_signer :
      String → String → NetworkParams → Duration → Result (Reloading ExternalKesSigner)
  new_reloading_external_kes_signer command op_cert_path params timeout =
      new_reloading_kes_signing_provider true
        (made_by (new_external_kes_signer k command op_cert_path params timeout))

-- signer := s.ActiveSigner(); if signer == nil { … }; a call of a method of it
unfoldable pub delegate {ℓ κ} : {S : Type ℓ} {A : Type κ} → Reloading S → (S → Result A) → Result A
delegate s call = elim s.active [
  | none ↦ err (sentinel signer_required)
  | some signer ↦ call signer
]

-- The methods of `ReloadingKESSigningProvider`.
unfoldable pub reloading_sign : Reloading KesSigningProvider → Bytes → Result SignedKesPayload
reloading_sign s payload = delegate s (λ p. p.sign payload)

unfoldable pub reloading_sign_at :
    Reloading KesSigningProvider → ℕ → Bytes → Result SignedKesPayload
reloading_sign_at s period payload = delegate s (λ p. p.sign_at period payload)

unfoldable pub reloading_current_period : Reloading KesSigningProvider → Result ℕ
reloading_current_period s = delegate s (λ p. p.current_period)

abbrev zero_certificate : KesSigningCertificate
zero_certificate = record {
  kes_vkey = [];
  issue_number = 0;
  kes_period = 0;
  signature = [];
  cold_vkey = [];
}

unfoldable pub reloading_operational_certificate :
    Reloading KesSigningProvider → KesSigningCertificate
reloading_operational_certificate s = elim s.active [
  | none ↦ zero_certificate
  | some p ↦ p.operational_certificate
]

-- The wrapper as a provider, by its methods.
abbrev pub as_provider : Reloading KesSigningProvider → KesSigningProvider
as_provider s = record {
  current_period = reloading_current_period s;
  operational_certificate = reloading_operational_certificate s;
  sign_at = reloading_sign_at s;
  sign = reloading_sign s;
}

-- What a message signer holds: a provider, or a wrapper whose active provider it takes once for each
-- message.
pub data HeldProvider : Type 0 where
  fixed : Option KesSigningProvider → HeldProvider
  reloaded : Reloading KesSigningProvider → HeldProvider

-- The start of `KESSigningProviderSigner.Sign`.
unfoldable pub held_sign : KesCrypto → HeldProvider → DmqMessagePayload → Result DmqMessage
held_sign k (fixed provider) payload = provider_sign k provider payload
held_sign k (reloaded s) payload = provider_sign k s.active payload

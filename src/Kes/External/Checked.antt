-- ===== src/Kes/External/Checked.antt =====
-- What `NewExternalKESSignerFromConfig` of kes_payload.go has checked of the signer it makes.
use dmq_lib.Prelude.{
  ℕ, ◌≤◌, ◌*◌, if◌then◌else◌, ◌≡◌, ◌≢◌, ◌⊎◌, inl, inr, refl, sym, ap, ◌∙◌, ◌↔◌, String, Bool-cases,
  true, false, List, [], ◌∷◌, ◌==◌, ==_iff, string_eq, nat_eq, arith, All,
}
use dmq_lib.Kes.Keys.{not-false, ok_inj}
use dmq_lib.Errors.{ok, guard_ok, bind_ok}
use dmq_lib.Prelude.Int.{pos, negsuc}
use dmq_lib.Time.{Duration}
use dmq_lib.Text.{codes, trim_text}
use dmq_lib.Kes.{KesCrypto, KesSigningCertificate, params_missing, load_operational_certificate}
use dmq_lib.Kes.External.{
  ExternalKesSignerConfig, ExternalKesSigner, valid_env_prefix, has_control, is_abs,
  timeout_or_default, prefix_or_default, new_external_kes_signer_from_config,
}

-- An upper-case letter, a digit or an underscore.
abbrev pub IsPrefixChar : ℕ → Type 0
IsPrefixChar r = ((b'A' ≤ r) × (r ≤ b'Z')) ⊎ (((b'0' ≤ r) × (r ≤ b'9')) ⊎ (r ≡ b'_'))

valid_env_prefix_iff : (rs : List ℕ) → (valid_env_prefix rs ≡ true) ↔ All IsPrefixChar rs
unfolding valid_env_prefix
valid_env_prefix_iff [] = (λ _. tt, λ _. refl)
valid_env_prefix_iff (r ∷ rs) = ground (arith, valid_env_prefix_iff rs)

abbrev pub IsPrintable : ℕ → Type 0
IsPrintable c = (c ≢ 0) × (c ≢ 10) × (c ≢ 13)

has_control_iff : (cs : List ℕ) → (has_control cs ≡ false) ↔ All IsPrintable cs
unfolding has_control
has_control_iff [] = (λ _. tt, λ _. refl)
has_control_iff (c ∷ cs) = ground (arith, has_control_iff cs)

abbrev pub IsAbsolute : List ℕ → Type 0
IsAbsolute cs = (rest : List ℕ) × (cs ≡ b'/' ∷ rest)

is_abs_iff : (cs : List ℕ) → (is_abs cs ≡ true) ↔ IsAbsolute cs
unfolding is_abs
is_abs_iff [] = (λ h. cc, λ x. cc (x.1))
is_abs_iff (c ∷ cs) = (λ h. (cs, ground arith), λ x. ground (arith, x.1))

-- Five seconds where no time limit above zero is configured.
abbrev pub time_limit : Duration → Duration
time_limit (pos n) = if n == 0 then pos (5 * 1000000000) else pos n
time_limit (negsuc n) = pos (5 * 1000000000)

-- `DMQ` where no prefix is configured but white space.
abbrev pub env_name : String → String
env_name p = if trim_text p == "" then "DMQ" else trim_text p

timeout_or_default_lem : (d : Duration) → timeout_or_default d ≡ time_limit d
unfolding timeout_or_default
timeout_or_default_lem (pos n) = ground arith
timeout_or_default_lem (negsuc n) = ground arith

module _ (k : KesCrypto) where
  -- The command is an absolute path in one line, the network's timing is known, the certificate loads
  -- and is valid, and the prefix, `DMQ` where none is given, has only letters, digits and underscores.
  pub record IsUsable (cfg : ExternalKesSignerConfig) (cert : KesSigningCertificate) : Type 0 where
    pub absolute : IsAbsolute (codes (trim_text cfg.command))
    pub one_line : All IsPrintable (codes (trim_text cfg.command))
    pub timing : params_missing cfg.network ≡ false
    pub loaded : load_operational_certificate k cfg.operational_certificate_path ≡ ok cert
    pub named : All IsPrefixChar (codes (env_name cfg.env_prefix))

  abbrev pub signer_of : ExternalKesSignerConfig → KesSigningCertificate → ExternalKesSigner
  signer_of cfg cert = record {
    command = trim_text cfg.command;
    op_cert_path = cfg.operational_certificate_path;
    timeout = time_limit cfg.timeout;
    network = cfg.network;
    op_cert = cert;
    env_prefix = env_name cfg.env_prefix;
  }

  -- The same, with the defaults as the functions of the code fill them in.
  same_signer :
      (cfg : ExternalKesSignerConfig) (cert : KesSigningCertificate)
      → record (signer_of cfg cert) {
        timeout = timeout_or_default cfg.timeout;
        env_prefix = prefix_or_default cfg.env_prefix;
      }
        ≡ signer_of cfg cert
  unfolding prefix_or_default
  same_signer cfg cert = rw (timeout_or_default_lem cfg.timeout) refl

  absolute_nonempty : (s : String) → IsAbsolute (codes s) → (s == "") ≡ false
  absolute_nonempty s (rest, x) = elim (Bool-cases (s == "")) [
    | inl e ↦ absurd (cc (ap codes ((==_iff s "").0 e), x))
    | inr e ↦ e
  ]

  checked :
      (cfg : ExternalKesSignerConfig) (s : ExternalKesSigner)
      → new_external_kes_signer_from_config k cfg ≡ ok s
      → (cert : KesSigningCertificate) × (IsUsable cfg cert × (s ≡ signer_of cfg cert))
  unfolding new_external_kes_signer_from_config prefix_or_default
  checked cfg s h =
      let (_, h1) = guard_ok _ _ _ s h in
      let (control, h2) = guard_ok _ _ _ s h1 in
      let (abs, h3) = guard_ok _ _ _ s h2 in
      let (timing, h4) = guard_ok _ _ _ s h3 in
      let (cert, (loaded, h5)) = bind_ok _ _ s h4 in
      let (named, h6) = guard_ok _ _ _ s h5 in
      (
        cert,
        (
          record {
            absolute = (is_abs_iff _).0 (not-false _ abs);
            one_line = (has_control_iff _).0 control;
            timing = timing;
            loaded = loaded;
            named = (valid_env_prefix_iff _).0 (not-false _ named);
          },
          sym (ok_inj h6) ∙ same_signer cfg cert,
        ),
      )

  made :
      (cfg : ExternalKesSignerConfig) (cert : KesSigningCertificate)
      → IsUsable cfg cert
      → new_external_kes_signer_from_config k cfg ≡ ok (signer_of cfg cert)
  unfolding new_external_kes_signer_from_config prefix_or_default
  made cfg cert u =
      rw
        (
          timeout_or_default_lem cfg.timeout,
          absolute_nonempty (trim_text cfg.command) u.absolute,
          (has_control_iff (codes (trim_text cfg.command))).1 u.one_line,
          (is_abs_iff (codes (trim_text cfg.command))).1 u.absolute,
          u.timing,
          u.loaded,
          (valid_env_prefix_iff (codes (env_name cfg.env_prefix))).1 u.named,
        )
        refl

-- A signer is made exactly where the command, without the white space around it, is an absolute path
-- in one line, the network's start and slots per period are there, the certificate loads and is
-- valid, and the prefix is made of upper-case letters, digits and underscores. It has that command
-- and prefix, which is `DMQ` where none is given but white space, and the configured time limit, or
-- five seconds where none above zero is.
pub new_external_kes_signer_from_config_iff :
    (k : KesCrypto) (cfg : ExternalKesSignerConfig) (s : ExternalKesSigner)
    → (new_external_kes_signer_from_config k cfg ≡ ok s)
      ↔ ((cert : KesSigningCertificate) × (IsUsable k cfg cert × (s ≡ signer_of k cfg cert)))
new_external_kes_signer_from_config_iff k cfg s =
    (checked k cfg s, λ (cert, (u, e)). made k cfg cert u ∙ ap ok (sym e))

-- ===== src/Errors.antt =====
-- errors.go, and the errors that the other files make: by `errors.New`, by `fmt.Errorf` around a
-- sentinel (`%w`), and by other packages. `RejectReason` is the one of gOuroboros, and `Result`
-- stands for Go's pairs of a value and an error.
use dmq_lib.Prelude.{
  ℕ, ◌≡◌, refl, String, Bool, true, false, ◌||◌, Option, none, some, ◌==◌, nat_eq, Bytes,
  if◌then◌else◌,
}
use dmq_lib.Prelude.Int.{ℤ}

-- The package's error variables.
pub data Sentinel : Type 0 where
  manager_closed topic_exists topic_not_found : Sentinel
  signer_required authenticator_required : Sentinel
  duplicate_message queue_full subscription_closed : Sentinel
  message_expired message_ttl_too_far message_body_too_large : Sentinel
  message_expiry_out_of_range message_id_mismatch : Sentinel
  network_magic_required authentication_required : Sentinel
  ledger_peer_snapshot_unsupported ledger_peer_snapshot_provider_unset kes_key_mismatch : Sentinel

-- What `fmt.Errorf` prints behind a sentinel.
pub data Detail : Type 0 where
  body_size : ℕ → Detail
  expiry : ℤ → ℤ → Detail
  ids : Bytes → Bytes → Detail
  note : String → Detail

-- `sentinel`: the variable itself. `detailed`: "%w: …" around a sentinel. `joined`: "%w: %w".
-- `context`: "…: %w" around an error. `plain`: `errors.New`, or `fmt.Errorf` without `%w`, in this
-- package, by its text without the numbers. `external`: an error of another package, by its text.
pub data Error : Type 0 where
  sentinel : Sentinel → Error
  detailed : Sentinel → Detail → Error
  joined : Sentinel → Error → Error
  context : String → Error → Error
  plain : String → Error
  external : String → Error

abbrev pub code : Sentinel → ℕ
code manager_closed = 0
code topic_exists = 1
code topic_not_found = 2
code signer_required = 3
code authenticator_required = 4
code duplicate_message = 5
code queue_full = 6
code subscription_closed = 7
code message_expired = 8
code message_ttl_too_far = 9
code message_body_too_large = 10
code message_expiry_out_of_range = 11
code message_id_mismatch = 12
code network_magic_required = 13
code authentication_required = 14
code ledger_peer_snapshot_unsupported = 15
code ledger_peer_snapshot_provider_unset = 16
code kes_key_mismatch = 17

-- `errors.Is(err, sentinel)`: along the chain of wrapped errors.
abbrev pub is : Error → Sentinel → Bool
is (sentinel s) t = code s == code t
is (detailed s d) t = code s == code t
is (joined s e) t = code s == code t || is e t
is (context c e) t = is e t
is (plain s) t = false
is (external s) t = false

pub data Result {ℓ} (A : Type ℓ) : Type ℓ where
  ok : A → Result A
  err : Error → Result A

infixl 5 ◌>>=◌ ◌>>◌
abbrev pub ◌>>=◌ {ℓ κ} : {A : Type ℓ} {B : Type κ} → Result A → (A → Result B) → Result B
ok a >>= f = f a
err e >>= f = err e

-- if fails { return err }
abbrev pub fail_if : Bool → Error → Result (Unit {0})
fail_if true e = err e
fail_if false e = ok tt

abbrev pub ◌>>◌ {ℓ} : {B : Type ℓ} → Result (Unit {0}) → Result B → Result B
m >> k = m >>= λ _. k

-- The reasons that a peer or a hook is given; `Message: err.Error()` is kept as the error.
pub data RejectReason : Type 0 where
  invalid : Error → RejectReason
  already_received : RejectReason
  expired : RejectReason
  other : Error → RejectReason

-- topic.go, `rejectReasonFromError`.
unfoldable pub reject_reason_from_error : Option Error → Option RejectReason
reject_reason_from_error none = none
reject_reason_from_error (some e) =
    if is e duplicate_message
    then some already_received
    else if is e message_expired
    then some expired
    else if is e queue_full || is e manager_closed
    then some (other e)
    else some (invalid e)

-- For a goal about what follows a result.
module _ {ℓ κ} {A : Type ℓ} (P : A → Type κ) where
  pub result_cases {ι} :
      {B : Type ι} (r : Result B) (f : Error → A) (g : B → A)
      → ((e : Error) → r ≡ err e → P (f e))
      → ((b : B) → r ≡ ok b → P (g b))
      → P (elim r [ err e ↦ f e | ok b ↦ g b ])
  result_cases (ok b) f g bad good = good b refl
  result_cases (err e) f g bad good = bad e refl

-- Where a chain succeeds, so does each part of it.
module _ {ℓ κ} {A : Type ℓ} {B : Type κ} where
  pub bind_ok :
      (r : Result A) (f : A → Result B) (b : B)
      → (r >>= f) ≡ ok b
      → (a : A) × ((r ≡ ok a) × (f a ≡ ok b))
  bind_ok (ok a) f b h = (a, (refl, h))
  bind_ok (err e) f b h = cc

module _ {ℓ} {A : Type ℓ} where
  pub guard_ok :
      (fails : Bool) (e : Error) (rest : Result A) (a : A)
      → (fail_if fails e >> rest) ≡ ok a
      → (fails ≡ false) × (rest ≡ ok a)
  guard_ok true e rest a h = cc
  guard_ok false e rest a h = (refl, h)

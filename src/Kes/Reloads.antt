-- ===== src/Kes/Reloads.antt =====
-- The reloading wrappers of reloading.go over any number of reloads.
use mathlib.Core.Path.{subst}
use dmq_lib.Prelude.{◌≡◌, refl, Bool, true, false, Option, none, some, List, [], ◌∷◌}
use dmq_lib.Errors.{Result, ok, err}
use dmq_lib.Kes.Reloading.{Reloading, Wrapper, reload, new_reloading, delegate}

module _ {ℓ} {S : Type ℓ} where
  pub reloads : Reloading S → List (Result (Option S)) → Reloading S
  reloads s [] = s
  reloads s (made ∷ rest) = reloads (reload s made).0 rest

  -- The signer that the factory made last, or the one from before.
  abbrev pub last_made : S → List (Result (Option S)) → S
  last_made signer [] = signer
  last_made signer (err e ∷ rest) = last_made signer rest
  last_made signer (ok none ∷ rest) = last_made signer rest
  last_made signer (ok (some next) ∷ rest) = last_made next rest

  abbrev made_with : Wrapper → S → Reloading S
  made_with wrapper signer = record { wrapper = wrapper; has_factory = true; active = some signer }

  reloads_last :
      (wrapper : Wrapper) (signer : S) (rs : List (Result (Option S)))
      → (reloads (made_with wrapper signer) rs).active ≡ some (last_made signer rs)
  unfolding reloads reload
  reloads_last wrapper signer [] = refl
  reloads_last wrapper signer (err e ∷ rs) = reloads_last wrapper signer rs
  reloads_last wrapper signer (ok none ∷ rs) = reloads_last wrapper signer rs
  reloads_last wrapper signer (ok (some next) ∷ rs) = reloads_last wrapper next rs

  constructed : (a b : Reloading S) → ok a ≡ ok b → a ≡ b
  constructed a b h = cc

-- A reloading wrapper of either kind is constructed only around what its factory made, and a call
-- then goes to what the factory made last, however many reloads fail since, and never to none.
pub delegate_last {ℓ κ} :
    {S : Type ℓ} {A : Type κ} (wrapper : Wrapper) (has_factory : Bool) (first : Result (Option S))
    (s : Reloading S) (rs : List (Result (Option S))) (call : S → Result A)
    → new_reloading wrapper has_factory first ≡ ok s
    → (signer : S) × (first ≡ ok (some signer))
      × (delegate (reloads s rs) call ≡ call (last_made signer rs))
unfolding new_reloading reload delegate
delegate_last wrapper true (ok (some signer)) s rs call h = (
  signer,
  refl,
  subst (λ x. delegate (reloads x rs) call ≡ call (last_made signer rs))
      (constructed (made_with wrapper signer) s h) (rw (reloads_last wrapper signer rs) refl),
)
delegate_last wrapper true (ok none) s rs call h = cc
delegate_last wrapper true (err e) s rs call h = cc
delegate_last wrapper false first s rs call h = cc

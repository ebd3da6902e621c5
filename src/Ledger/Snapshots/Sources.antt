-- ===== src/Ledger/Snapshots/Sources.antt =====
-- Where the snapshots of `DingoLedgerPeerProviderAdapter` in discovery.go come from.
use dmq_lib.Prelude.{
  ℕ, ◌+◌, ◌≡◌, ◌≢◌, ◌⊎◌, inl, inr, refl, sym, ap, true, Option, none, some, List, [], ◌∷◌, map,
  ==_iff, string_eq, arith, option_cases,
}
use dmq_lib.Errors.{Error, Result, ok, bind_ok, guard_ok}
use dmq_lib.Peer.{LedgerPeerSnapshot, LedgerPeerSnapshotKind, ledger_peer_snapshot_big}
use dmq_lib.Kes.Keys.{not-false, ok_inj}
use dmq_lib.Ledger.{Collected, collect_pool, collect_pools, nothing_collected, selected_pools}
use dmq_lib.Ledger.Snapshots.{
  DingoAdapter, StakedProvider, LedgerPeerProvider, PoolRelay, checked, relay_only,
  staked_provider_snapshot, relay_only_snapshot, dingo_snapshot, dingo_relay_to_ledger_relay,
}

-- The snapshot is what a provider with stakes gives.
pub record IsStaked (a : DingoAdapter) (s : LedgerPeerSnapshot) : Type 0 where
  pub source : StakedProvider
  pub given : source.peers ≡ ok s.peers
  pub slot : s.slot ≡ source.current_slot
  pub held :
      (a.staked_provider ≡ some source)
      ⊎ ((p : LedgerPeerProvider) × (a.provider ≡ some p) × (p.staked ≡ some source))

-- The snapshot has one pool without ID and stake for each relay that the provider gives, in order,
-- and the provider's slot; relays only are allowed, and no pool of them is big.
pub record IsRelayOnly (a : DingoAdapter) (kind : LedgerPeerSnapshotKind) (s : LedgerPeerSnapshot)
    : Type 0 where
  pub source : LedgerPeerProvider
  pub held : a.provider ≡ some source
  pub no_stakes : (a.staked_provider ≡ none) × (source.staked ≡ none)
  pub found : List PoolRelay
  pub given : source.pool_relays ≡ ok found
  pub peers :
      s.peers
      ≡ map
          (λ r. record { pool_id = ""; stake = 0; relays = dingo_relay_to_ledger_relay r ∷ [] })
          found
  pub slot : s.slot ≡ source.current_slot
  pub allowed : a.allow_relay_only ≡ true
  pub not_big : kind ≢ ledger_peer_snapshot_big
  pub none_selected : selected_pools s.peers ≡ []

collect_unstaked :
    (c : Collected) (i : ℕ) (relays : List PoolRelay)
    → collect_pools c i (map relay_only relays) ≡ c
unfolding collect_pools collect_pool
collect_unstaked c i [] = refl
collect_unstaked c i (r ∷ rs) = collect_unstaked c (i + 1) rs

unstaked_selected : (relays : List PoolRelay) → selected_pools (map relay_only relays) ≡ []
unfolding selected_pools
unstaked_selected relays = rw (collect_unstaked nothing_collected 0 relays) refl

staked_lem :
    (cancelled : Option Error) (p : StakedProvider) (s : LedgerPeerSnapshot)
    → staked_provider_snapshot cancelled p ≡ ok s
    → (p.peers ≡ ok s.peers) × (s.slot ≡ p.current_slot)
unfolding staked_provider_snapshot
staked_lem cancelled p s h =
    let (_, (_, r)) = bind_ok (checked cancelled) _ s h in
    let (peers, (given, e)) = bind_ok p.peers _ s r in (ground (arith, given, e), ground (arith, e))

relay_only_lem :
    (a : DingoAdapter) (cancelled : Option Error) (kind : LedgerPeerSnapshotKind)
    (p : LedgerPeerProvider) (s : LedgerPeerSnapshot)
    → a.provider ≡ some p
    → (a.staked_provider ≡ none) × (p.staked ≡ none)
    → relay_only_snapshot a.allow_relay_only cancelled kind p ≡ ok s
    → IsRelayOnly a kind s
unfolding relay_only_snapshot
relay_only_lem a cancelled kind p s held no_stakes h =
    let (allowed, h1) = guard_ok _ _ _ s h in
    let (big, h2) = guard_ok _ _ _ s h1 in
    let (_, (_, h3)) = bind_ok (checked cancelled) _ s h2 in
    let (found, (given, e)) = bind_ok p.pool_relays _ s h3 in
    record {
      source = p;
      held = held;
      no_stakes = no_stakes;
      found = found;
      given = given;
      peers = ap (λ (x : LedgerPeerSnapshot). x.peers) (sym (ok_inj e));
      slot = ap (λ (x : LedgerPeerSnapshot). x.slot) (sym (ok_inj e));
      allowed = not-false _ allowed;
      not_big = λ x. cc (big, (==_iff kind ledger_peer_snapshot_big).1 x);
      none_selected = rw (← ok_inj e) (unstaked_selected found);
    }

-- A snapshot from the adapter is either what a provider with stakes gives, its peers and its slot, or
-- has one pool without ID and stake for each relay of a provider without stakes, in order, with that
-- provider's slot. The adapter must allow the latter, which is not one that was asked for its big
-- pools, and the selection of big ledger pools from it is empty.
pub dingo_snapshot_cases :
    (a : DingoAdapter) (cancelled : Option Error) (kind : LedgerPeerSnapshotKind)
    (s : LedgerPeerSnapshot)
    → dingo_snapshot a cancelled kind ≡ ok s
    → IsStaked a s ⊎ IsRelayOnly a kind s
unfolding dingo_snapshot
dingo_snapshot_cases a cancelled kind s =
    let P = λ (r : Result LedgerPeerSnapshot). r ≡ ok s → IsStaked a s ⊎ IsRelayOnly a kind s in
    option_cases P a.staked_provider _ _
      (λ unset.
        option_cases P a.provider _ _ (λ _ h. cc)
          (λ p given.
            option_cases P p.staked _ _
              (λ plain_one h. inr (relay_only_lem a cancelled kind p s given (unset, plain_one) h))
              (λ q staked h.
                let (peers, slot) = staked_lem cancelled q s h in
                inl (record {
                  source = q;
                  given = peers;
                  slot = slot;
                  held = inr (p, given, staked);
                }))))
      (λ q staked h.
        let (peers, slot) = staked_lem cancelled q s h in
        inl (record { source = q; given = peers; slot = slot; held = inl staked }))

-- ===== src/Discovery.antt =====
-- discovery.go, `discoverPeers`: the peers of a topic, with those of the ledger where it is asked.
use dmq_lib.Prelude.{String, ◌&&◌, none, some, List, [], ◌∷◌, ◌++◌, if◌then◌else◌, Bytes}
use dmq_lib.Errors.{
  Result, ok, err, sentinel, is, ledger_peer_snapshot_provider_unset,
  ledger_peer_snapshot_unsupported,
}
use dmq_lib.Peer.{
  Peer, LedgerPeerSnapshot, peer_source_ledger, peer_source_big_ledger, ledger_peer_snapshot_all,
}
use dmq_lib.Selector.{all_peers, set_peers_for_sources}
use dmq_lib.Ledger.{build_ledger_peer_pools}
use dmq_lib.Topic.{TopicRuntime, peers_discovered}

-- The selector with the ledger's peers replaced, and the hook called with the result.
unfoldable pub refresh : (Bytes → String) → TopicRuntime → LedgerPeerSnapshot → TopicRuntime
refresh ip_string t snapshot =
    let pools = build_ledger_peer_pools ip_string snapshot in
    let selector =
      set_peers_for_sources t.peer_selector (peer_source_ledger ∷ peer_source_big_ledger ∷ [])
        (pools.all ++ pools.big) in
    record t {
      peer_selector = selector;
      events =
          if t.cfg.hooks.on_peer_discovered
          then t.events ++ peers_discovered (all_peers selector) ∷ []
          else t.events;
    }

unfoldable pub discover_peers : (Bytes → String) → TopicRuntime → TopicRuntime × Result (List Peer)
discover_peers ip_string t =
    let cfg = t.cfg.discovery.ledger_peers in
    let known = all_peers t.peer_selector in
    if cfg.enabled
    then elim cfg.provider [
      | none ↦
          if cfg.allow_unsupported
          then (t, ok known)
          else (t, err (sentinel ledger_peer_snapshot_provider_unset))
      | some provider ↦ elim (provider ledger_peer_snapshot_all) [
        | err e ↦
            if cfg.allow_unsupported && is e ledger_peer_snapshot_unsupported
            then (t, ok known)
            else (t, err e)
        | ok snapshot ↦ let u = refresh ip_string t snapshot in (u, ok (all_peers u.peer_selector))
      ]
    ]
    else (t, ok known)

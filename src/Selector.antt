-- ===== src/Selector.antt =====
-- discovery.go: `newPeer`, `PeerSelector` and its quotas. The lock of the selector makes each method
-- one step; the map of peers is keyed by "source/address".
pub mod Quotas
pub mod Order
pub mod Entries
pub mod Ranging
pub mod Abstract
use dmq_lib.Prelude.{
  ℕ, ◌+◌, String, Bool, true, false, ◌&&◌, ◌||◌, not, Option, none, some, List, [], ◌∷◌, ◌==◌,
  nat_eq, string_eq, leb, if◌then◌else◌, any,
}
use dmq_lib.Prelude.Dict.{Dict, lookup, insert, retain}
use dmq_lib.Prelude.Int.{ℤ, pos, ltb_ℤ}
use dmq_lib.Prelude.Sort.{slice_stable}
use dmq_lib.Text.{◌+s◌, format_uint, join_host_port, str_ltb}
use dmq_lib.Peer.{
  Peer, PeerSource, peer_source_static, peer_source_topology_local_root,
  peer_source_topology_public, peer_source_topology_bootstrap, peer_source_peer_sharing,
  peer_source_ledger, peer_source_big_ledger,
}

unfoldable pub new_peer : String → ℕ → Peer → Peer
new_peer host port base = record base {
  host = host;
  port = port;
  address = if port == 0 then host else join_host_port host (format_uint port);
}

pub record PeerSelectionConfig : Type 0 where
  pub topology_quota : ℤ
  pub peer_share_quota : ℤ
  pub ledger_quota : ℤ
  pub big_ledger_quota : ℤ

pub record PeerSelector : Type 0 where
  pub cfg : PeerSelectionConfig
  pub peers : Dict String Peer

unfoldable pub new_peer_selector : PeerSelectionConfig → PeerSelector
new_peer_selector cfg = record { cfg = cfg; peers = [] }

-- fmt.Sprintf("%s/%s", peer.Source, peer.Address)
unfoldable pub peer_key : Peer → String
peer_key p = p.source +s "/" +s p.address

-- The peer as `addPeersLocked` stores it: with an address, or not at all.
unfoldable pub with_address : Peer → Option Peer
with_address p =
    if p.address == ""
    then (if p.host == "" then none else some (new_peer p.host p.port p))
    else some p

unfoldable pub add_peer : Peer → Dict String Peer → Dict String Peer
add_peer p m = elim (with_address p) [ none ↦ m | some q ↦ insert (peer_key q) q m ]

unfoldable pub add_peers_locked : List Peer → Dict String Peer → Dict String Peer
add_peers_locked [] m = m
add_peers_locked (p ∷ ps) m = add_peers_locked ps (add_peer p m)

unfoldable pub add_peers : PeerSelector → List Peer → PeerSelector
add_peers s ps = record s { peers = add_peers_locked ps s.peers }

unfoldable pub set_peers_for_sources : PeerSelector → List PeerSource → List Peer → PeerSelector
set_peers_for_sources s sources ps =
    let others = retain (λ _ p. not (any (λ c. c == p.source) sources)) s.peers in
    record s { peers = add_peers_locked ps others }

-- The comparison of `sortPeers`.
unfoldable pub peer_less : Peer → Peer → Bool
peer_less a b =
    if a.source == b.source then str_ltb a.address b.address else str_ltb a.source b.source

unfoldable pub sort_peers : List Peer → List Peer
sort_peers = slice_stable peer_less

-- for _, peer := range m
abbrev pub values : Dict String Peer → List Peer
values [] = []
values ((k, p) ∷ m) = p ∷ values m

unfoldable pub all_peers : PeerSelector → List Peer
all_peers s = sort_peers (values s.peers)

unfoldable pub is_topology_quota_source : PeerSource → Bool
is_topology_quota_source c =
    c == peer_source_topology_local_root
    || c == peer_source_topology_public
    || c == peer_source_topology_bootstrap
    || c == peer_source_static

-- The quota class of a source, and its quota; zero or less is no limit.
unfoldable pub quota_for_source : PeerSource → PeerSelectionConfig → String × ℤ
unfolding is_topology_quota_source
quota_for_source c cfg =
    if is_topology_quota_source c
    then ("topology", cfg.topology_quota)
    else if c == peer_source_peer_sharing
    then ("peer-sharing", cfg.peer_share_quota)
    else if c == peer_source_ledger
    then ("ledger", cfg.ledger_quota)
    else if c == peer_source_big_ledger
    then ("big-ledger", cfg.big_ledger_quota)
    else (c, pos 0)

-- counts[class], zero where the class is missing.
abbrev pub count_of : Option ℕ → ℕ
count_of none = 0
count_of (some n) = n

pub class_count : String → Dict String ℕ → ℕ
class_count class counts = count_of (lookup class counts)

-- quota > 0 && counts[class] >= quota
abbrev pub quota_reached : ℤ → ℕ → Bool
quota_reached quota n = ltb_ℤ (pos 0) quota && not (ltb_ℤ (pos n) quota)

-- The loop of `Select`; `taken` is the number of peers selected so far.
pub select_loop : PeerSelectionConfig → ℤ → Dict String ℕ → ℕ → List Peer → List Peer
select_loop cfg n counts taken [] = []
select_loop cfg n counts taken (p ∷ ps) =
    let (class, quota) = quota_for_source p.source cfg in
    let count = class_count class counts in
    let skipped = select_loop cfg n counts taken ps in
    let rest = select_loop cfg n (insert class (count + 1) counts) (taken + 1) ps in
    if quota_reached quota count
    then skipped
    else if quota_reached n (taken + 1)
    then p ∷ []
    else p ∷ rest

pub select : PeerSelector → ℤ → List Peer
select s n = select_loop s.cfg n [] 0 (all_peers s)

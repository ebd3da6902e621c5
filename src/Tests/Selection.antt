-- ===== src/Tests/Selection.antt =====
-- Examples of what is shown of the entries of a peer selector, and of the order of its selections.
use dmq_lib.Prelude.{◌≡◌, refl, String, List, [], ◌∷◌, ==_iff, string_eq, arith, none, false}
use dmq_lib.Prelude.Dict.{Dict, lookup, insert, has}
use dmq_lib.Prelude.Int.{pos}
use dmq_lib.Peer.{Peer, peer_source_static}
use dmq_lib.Selector.{
  PeerSelectionConfig, new_peer_selector, add_peers, all_peers, select, add_peers_locked, add_peer,
  with_address, peer_key,
}
use dmq_lib.Selector.Entries.{SelectorCall, added, refreshed, selector_run, entry}
use dmq_lib.Selector.Abstract.{peer_set, run_set, select_set, selector_run-run_set}
use dmq_lib.Selector.Ranging.{select_any_order}
use dmq_lib.Tests.{static_peer}

abbrev one_static : PeerSelectionConfig
one_static = record {
  topology_quota = pos 1;
  peer_share_quota = pos 0;
  ledger_quota = pos 0;
  big_ledger_quota = pos 0;
}

-- Two peers, and then a refresh that finds one of them.
abbrev two_then_one : List SelectorCall
two_then_one =
    refreshed (peer_source_static ∷ []) (static_peer "b:1" ∷ [])
    ∷ added (static_peer "a:1" ∷ static_peer "b:1" ∷ [])
    ∷ []

refresh_drops : entry "static/a:1" two_then_one ≡ none
unfolding with_address peer_key
refresh_drops = refl

abbrev two_added : List SelectorCall
two_added = added (static_peer "a:1" ∷ static_peer "b:1" ∷ []) ∷ []

-- The same entries, the last one first.
abbrev ranged_back : Dict String Peer
ranged_back = ("static/b:1", static_peer "b:1") ∷ ("static/a:1", static_peer "a:1") ∷ []

apart : string_eq.equal "static/a:1" "static/b:1" ≡ false
apart = refl

same_entries :
    (k : String) → lookup k ranged_back ≡ lookup k (selector_run one_static two_added).peers
unfolding lookup add_peers new_peer_selector add_peers_locked add_peer with_address peer_key insert
same_entries k = ground (
  arith,
  apart,
  ==_iff {A = String} "static/b:1" k,
  ==_iff {A = String} "static/a:1" k,
  ==_iff {A = String} "static/a:1" "static/b:1",
)

select_any_order_example :
    (all_peers (record { cfg = one_static; peers = ranged_back })
      ≡ all_peers (selector_run one_static two_added))
    × (select (record { cfg = one_static; peers = ranged_back }) (pos 1)
        ≡ select (selector_run one_static two_added) (pos 1))
unfolding has
select_any_order_example =
    select_any_order one_static two_added ranged_back (refl, (refl, tt)) same_entries (pos 1)

abbrev two_added_back : List SelectorCall
two_added_back = added (static_peer "b:1" ∷ static_peer "a:1" ∷ []) ∷ []

same_calls : (k : String) → entry k two_added_back ≡ entry k two_added
unfolding with_address peer_key
same_calls k = ground (
  arith,
  apart,
  ==_iff {A = String} "static/b:1" k,
  ==_iff {A = String} "static/a:1" k,
  ==_iff {A = String} "static/a:1" "static/b:1",
)

selector_run-run_set_example :
    (peer_set one_static two_added_back ≡ run_set one_static two_added)
    × (select (selector_run one_static two_added_back) (pos 1)
        ≡ select_set one_static (pos 1) (run_set one_static two_added))
selector_run-run_set_example =
    selector_run-run_set one_static two_added_back two_added same_calls (pos 1)

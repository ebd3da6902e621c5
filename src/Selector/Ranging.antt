-- ===== src/Selector/Ranging.antt =====
-- discovery.go, `Peers` and `Select`: the range over the selector's map, whose order Go chooses,
-- and the sort after it.
use dmq_lib.Selector.Order.{insert_two}
use dmq_lib.Selector.Entries.{
  IsKeyed, SelectorCall, selector_run, selector_run-cfg, selector_run-IsPeerMap, lookup-IsKeyed,
  delete-IsKeyed,
}
use dmq_lib.Prelude.{
  ◌≡◌, refl, sym, ap, ◌∙◌, String, some, List, [], ◌∷◌, ◌==◌, ==_iff, ==_refl, string_eq, arith,
  inl, inr, Bool-cases,
}
use dmq_lib.Prelude.Dict.{
  Dict, lookup, has, delete, IsMap, lookup-delete, delete-IsMap, delete-absent, lookup-has-false,
}
use dmq_lib.Prelude.Int.{ℤ}
use dmq_lib.Prelude.Sort.{insert_sorted, slice_stable}
use dmq_lib.Peer.{Peer}
use dmq_lib.Selector.{
  PeerSelectionConfig, peer_key, peer_less, sort_peers, values, all_peers, select,
}

-- The sorted peers are those of the other entries, with the peer of a key put in.
sort_peers-delete :
    (k : String) (p : Peer) (m : Dict String Peer)
    → IsMap m
    → IsKeyed m
    → lookup k m ≡ some p
    → sort_peers (values m) ≡ insert_sorted peer_less p (sort_peers (values (delete k m)))
unfolding lookup delete sort_peers slice_stable
sort_peers-delete k p [] d h e = cc
sort_peers-delete k p ((j, q) ∷ m) d h e = elim (Bool-cases (j == k)) [
  | inl f ↦
      let same : q ≡ p = ground (arith, f, e) in
      let gone : delete k m ≡ m = ground (arith, d.0, f, ==_iff j k, delete-absent k m) in
      rw (f, same, gone) refl
  | inr f ↦
      let found : lookup k m ≡ some p = ground (arith, f, e) in
      let key : peer_key p ≡ k = lookup-IsKeyed k p m h.1 found in
      let rest = sort_peers-delete k p m d.1 h.1 found in
      let swap = insert_two q p (sort_peers (values (delete k m))) (rw (h.0, key) f) in
      rw f (ap (insert_sorted peer_less q) rest ∙ swap)
]

-- Two maps with the same entries, in whichever order, give the same sorted peers.
pub sort_peers_same :
    (m n : Dict String Peer)
    → IsMap m
    → IsKeyed m
    → IsMap n
    → IsKeyed n
    → ((k : String) → lookup k m ≡ lookup k n)
    → sort_peers (values m) ≡ sort_peers (values n)
unfolding lookup has sort_peers slice_stable
sort_peers_same [] [] d h c g same = refl
sort_peers_same [] ((k, p) ∷ n) d h c g same = ground (arith, same k, ==_refl k)
sort_peers_same ((k, p) ∷ m) n d h c g same =
    let found : lookup k n ≡ some p = ground (arith, same k, ==_refl k) in
    let others =
      sort_peers_same m (delete k n) d.1 h.1 (delete-IsMap k n c) (delete-IsKeyed k n g)
        (λ j. ground (arith, same j, lookup-delete k j n, ==_iff k j, d.0, lookup-has-false k m)) in
    ap (insert_sorted peer_less p) others ∙ sym (sort_peers-delete k p n c g found)

-- A map whose entries are those of a keyed map is keyed.
lookups-IsKeyed :
    (m : Dict String Peer)
    → IsMap m
    → ((k : String) (p : Peer) → lookup k m ≡ some p → peer_key p ≡ k)
    → IsKeyed m
unfolding lookup
lookups-IsKeyed [] d h = tt
lookups-IsKeyed ((k, p) ∷ m) d h = (
  h k p (ground (arith, ==_refl k)),
  lookups-IsKeyed m d.1 (λ j q e. h j q (ground (arith, d.0, ==_iff k j, e, lookup-has-false k m))),
)

-- After any calls, whatever the order in which Go ranges over the map of the selector (that is, for
-- every list of distinct keys with the same entries), the peers and each selection are the same.
pub select_any_order :
    (cfg : PeerSelectionConfig) (cs : List SelectorCall) (ranged : Dict String Peer)
    → IsMap ranged
    → ((k : String) → lookup k ranged ≡ lookup k (selector_run cfg cs).peers)
    → (n : ℤ)
    → (all_peers (record { cfg = cfg; peers = ranged }) ≡ all_peers (selector_run cfg cs))
      × (select (record { cfg = cfg; peers = ranged }) n ≡ select (selector_run cfg cs) n)
unfolding all_peers select
select_any_order cfg cs ranged d same n =
    let h = selector_run-IsPeerMap cfg cs in
    let keyed =
      lookups-IsKeyed ranged d
        (λ k p e. lookup-IsKeyed k p (selector_run cfg cs).peers h.1 (sym (same k) ∙ e)) in
    let sorted = sort_peers_same ranged (selector_run cfg cs).peers d keyed h.0 h.1 same in
    (sorted, rw (selector_run-cfg cfg cs, sorted) refl)

-- ===== src/Selector/Abstract.antt =====
-- discovery.go: a Go map has no order. The selector on maps without one.
use text.Mathlib.TextEquality.{IsScalar-prop}
use mathlib.Core.Quot
use mathlib.Core.Quot.{Quot, Quot-set}
use dmq_lib.Prelude.{◌≡◌, refl, sym, ap, ◌∙◌, String, List, [], ◌∷◌, string_eq}
use dmq_lib.Prelude.Dict.{Dict, lookup}
use dmq_lib.Prelude.Int.{ℤ}
use dmq_lib.Peer.{Peer}
use dmq_lib.Selector.{
  PeerSelectionConfig, PeerSelector, new_peer_selector, select, all_peers, select_loop,
}
use dmq_lib.Selector.Entries.{
  IsPeerMap, SelectorCall, selector_call, selector_run, selector_run-IsPeerMap,
  selector_call-IsPeerMap, entry, entry_after, selector_call-entry, selector_run-entry,
  selector_run-cfg,
}
use dmq_lib.Selector.Ranging.{sort_peers_same}

-- A list of entries with distinct keys, each its peer's.
abbrev PeerMap : Type 0
PeerMap = (m : Dict String Peer) × IsPeerMap m

abbrev SameEntries : PeerMap → PeerMap → Type 0
SameEntries m n = (k : String) → lookup k m.0 ≡ lookup k n.0

-- The entries without their order.
abbrev pub PeerSet : Type 0
PeerSet = Quot SameEntries

module _ (cfg : PeerSelectionConfig) where
  abbrev over : Dict String Peer → PeerSelector
  over m = record { cfg = cfg; peers = m }

  unfoldable pub call_set : SelectorCall → PeerSet → PeerSet
  call_set c =
      Quot.lift Quot-set
        (λ m.
          Quot.mk ((selector_call c (over m.0)).peers, selector_call-IsPeerMap c (over m.0) m.1))
        (λ m n h. Quot.sound (λ k.
          selector_call-entry k c (over m.0) m.1
          ∙ ap (entry_after k c) (h k)
          ∙ sym (selector_call-entry k c (over n.0) n.1)))

  unfoldable pub select_set : ℤ → PeerSet → List Peer
  unfolding select all_peers
  select_set n =
      Quot.lift (hlevel IsScalar-prop) (λ m. select (over m.0) n)
        (λ m o h. ap (select_loop cfg n [] 0) (sort_peers_same m.0 o.0 m.1.0 m.1.1 o.1.0 o.1.1 h))

  abbrev pub run_set : List SelectorCall → PeerSet
  run_set [] = Quot.mk ([], (tt, tt))
  run_set (c ∷ cs) = call_set c (run_set cs)

  -- The map of a selector after the calls, without its order.
  abbrev pub peer_set : List SelectorCall → PeerSet
  peer_set cs = Quot.mk ((selector_run cfg cs).peers, selector_run-IsPeerMap cfg cs)

  peer_set-call :
      (c : SelectorCall) (cs : List SelectorCall) → peer_set (c ∷ cs) ≡ call_set c (peer_set cs)
  unfolding call_set
  peer_set-call c cs =
      let s = selector_run cfg cs in
      let h = selector_run-IsPeerMap cfg cs in
      Quot.sound (λ k. selector_call-entry k c s h ∙ sym (selector_call-entry k c (over s.peers) h))

  peer_set-run_set : (cs : List SelectorCall) → peer_set cs ≡ run_set cs
  unfolding new_peer_selector
  peer_set-run_set [] = refl
  peer_set-run_set (c ∷ cs) = peer_set-call c cs ∙ ap (call_set c) (peer_set-run_set cs)

  select-peer_set :
      (cs : List SelectorCall) (n : ℤ) → select (selector_run cfg cs) n ≡ select_set n (peer_set cs)
  unfolding select_set select all_peers
  select-peer_set cs n = rw (selector_run-cfg cfg cs) refl

  -- Where two sequences of calls give the same entries, the selector after the one implements the
  -- selector on maps without an order after the other: its map is that one's map, once the order is
  -- forgotten, and it selects the peers that one selects.
  pub selector_run-run_set :
      (cs ds : List SelectorCall)
      → ((k : String) → entry k cs ≡ entry k ds)
      → (n : ℤ)
      → (peer_set cs ≡ run_set ds) × (select (selector_run cfg cs) n ≡ select_set n (run_set ds))
  selector_run-run_set cs ds same n =
      let sets : peer_set cs ≡ peer_set ds =
        Quot.sound
          (λ k. selector_run-entry cfg cs k ∙ same k ∙ sym (selector_run-entry cfg ds k)) in
      let implemented = sets ∙ peer_set-run_set ds in
      (implemented, select-peer_set cs n ∙ ap (select_set n) implemented)

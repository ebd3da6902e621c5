-- ===== src/Selector/Entries.antt =====
-- discovery.go: what the map of a selector holds after its calls.
use dmq_lib.Prelude.{
  ◌≡◌, refl, sym, ap, ◌∙◌, String, Bool, Option, none, some, List, [], ◌∷◌, ◌==◌, ==_iff, string_eq,
  if◌then◌else◌, arith, inl, inr, Option-cases, not, any,
}
use dmq_lib.Prelude.Dict.{
  Dict, lookup, insert, delete, retain, retain-IsMap, lookup-retain, filtered, IsMap, lookup-insert,
  insert-IsMap,
}
use dmq_lib.Peer.{Peer, PeerSource}
use dmq_lib.Selector.{
  PeerSelectionConfig, PeerSelector, new_peer_selector, peer_key, with_address, add_peer,
  add_peers_locked, add_peers, set_peers_for_sources,
}

-- Every entry is stored under its peer's key.
abbrev pub IsKeyed : Dict String Peer → Type 0
IsKeyed [] = Unit
IsKeyed ((k, p) ∷ m) = (peer_key p ≡ k) × IsKeyed m

pub lookup-IsKeyed :
    (k : String) (p : Peer) (m : Dict String Peer)
    → IsKeyed m
    → lookup k m ≡ some p
    → peer_key p ≡ k
unfolding lookup
lookup-IsKeyed k p [] h e = cc
lookup-IsKeyed k p ((j, q) ∷ m) h e = ground (arith, h.0, ==_iff j k, lookup-IsKeyed k p m h.1)

pub delete-IsKeyed : (k : String) (m : Dict String Peer) → IsKeyed m → IsKeyed (delete k m)
unfolding delete
delete-IsKeyed k [] h = tt
delete-IsKeyed k ((j, q) ∷ m) h = ground (arith, h.0, delete-IsKeyed k m h.1)

insert-IsKeyed : (p : Peer) (m : Dict String Peer) → IsKeyed m → IsKeyed (insert (peer_key p) p m)
unfolding insert
insert-IsKeyed p [] h = (refl, tt)
insert-IsKeyed p ((j, q) ∷ m) h = ground (arith, h.0, ==_iff j (peer_key p), insert-IsKeyed p m h.1)

retain-IsKeyed :
    (keep : String → Peer → Bool) (m : Dict String Peer) → IsKeyed m → IsKeyed (retain keep m)
unfolding retain
retain-IsKeyed keep [] h = tt
retain-IsKeyed keep ((j, q) ∷ m) h = ground (arith, h.0, retain-IsKeyed keep m h.1)

abbrev pub IsPeerMap : Dict String Peer → Type 0
IsPeerMap m = IsMap m × IsKeyed m

add_peer-IsPeerMap : (p : Peer) (m : Dict String Peer) → IsPeerMap m → IsPeerMap (add_peer p m)
unfolding add_peer
add_peer-IsPeerMap p m h = elim (Option-cases (with_address p)) [
  | inl e ↦ rw (add_peer, e) h
  | inr (q, e) ↦ rw (add_peer, e) (insert-IsMap (peer_key q) q m h.0, insert-IsKeyed q m h.1)
]

add_peers_locked-IsPeerMap :
    (ps : List Peer) (m : Dict String Peer) → IsPeerMap m → IsPeerMap (add_peers_locked ps m)
unfolding add_peers_locked
add_peers_locked-IsPeerMap [] m h = h
add_peers_locked-IsPeerMap (p ∷ ps) m h =
    add_peers_locked-IsPeerMap ps (add_peer p m) (add_peer-IsPeerMap p m h)

-- What is called on a selector: `AddPeers` by the static and shared peers, `setPeersForSources` by
-- each refresh.
pub data SelectorCall : Type 0 where
  added : List Peer → SelectorCall
  refreshed : List PeerSource → List Peer → SelectorCall

abbrev pub selector_call : SelectorCall → PeerSelector → PeerSelector
selector_call (added ps) s = add_peers s ps
selector_call (refreshed sources ps) s = set_peers_for_sources s sources ps

-- The selector after the calls, the last of the list first.
abbrev pub selector_run : PeerSelectionConfig → List SelectorCall → PeerSelector
selector_run cfg [] = new_peer_selector cfg
selector_run cfg (c ∷ cs) = selector_call c (selector_run cfg cs)

pub selector_run-cfg :
    (cfg : PeerSelectionConfig) (cs : List SelectorCall) → (selector_run cfg cs).cfg ≡ cfg
unfolding new_peer_selector add_peers set_peers_for_sources
selector_run-cfg cfg [] = refl
selector_run-cfg cfg (added ps ∷ cs) = selector_run-cfg cfg cs
selector_run-cfg cfg (refreshed sources ps ∷ cs) = selector_run-cfg cfg cs

pub selector_call-IsPeerMap :
    (c : SelectorCall) (s : PeerSelector) → IsPeerMap s.peers → IsPeerMap (selector_call c s).peers
unfolding add_peers set_peers_for_sources
selector_call-IsPeerMap (added ps) s h = add_peers_locked-IsPeerMap ps s.peers h
selector_call-IsPeerMap (refreshed sources ps) s h =
    let keep = λ (k : String) (p : Peer). not (any (λ c. c == p.source) sources) in
    add_peers_locked-IsPeerMap ps (retain keep s.peers)
      (retain-IsMap keep s.peers h.0, retain-IsKeyed keep s.peers h.1)

pub selector_run-IsPeerMap :
    (cfg : PeerSelectionConfig) (cs : List SelectorCall) → IsPeerMap (selector_run cfg cs).peers
unfolding new_peer_selector
selector_run-IsPeerMap cfg [] = (tt, tt)
selector_run-IsPeerMap cfg (c ∷ cs) =
    selector_call-IsPeerMap c (selector_run cfg cs) (selector_run-IsPeerMap cfg cs)

-- A peer that stands under the key, if it can be stored.
abbrev pub stored : String → Option Peer → Option Peer
stored k none = none
stored k (some p) = if peer_key p == k then some p else none

abbrev pub or_else : Option Peer → Option Peer → Option Peer
or_else none o = o
or_else (some p) o = some p

-- The last peer of a list that is stored under the key.
abbrev pub latest : String → List Peer → Option Peer
latest k [] = none
latest k (p ∷ ps) = or_else (latest k ps) (stored k (with_address p))

-- The peer, unless its source is one of those that a refresh replaces.
abbrev pub unless_from : List PeerSource → Option Peer → Option Peer
unless_from sources none = none
unless_from sources (some p) = if any (λ c. c == p.source) sources then none else some p

-- The entry of a key after a call, by the entry before.
abbrev pub entry_after : String → SelectorCall → Option Peer → Option Peer
entry_after k (added ps) o = or_else (latest k ps) o
entry_after k (refreshed sources ps) o = or_else (latest k ps) (unless_from sources o)

-- The entry of a key, by the calls alone.
abbrev pub entry : String → List SelectorCall → Option Peer
entry k [] = none
entry k (c ∷ cs) = entry_after k c (entry k cs)

or_else_assoc : (a b c : Option Peer) → or_else (or_else a b) c ≡ or_else a (or_else b c)
or_else_assoc none b c = refl
or_else_assoc (some p) b c = refl

lookup-add_peer :
    (k : String) (p : Peer) (m : Dict String Peer)
    → lookup k (add_peer p m) ≡ or_else (stored k (with_address p)) (lookup k m)
unfolding add_peer
lookup-add_peer k p m = elim (Option-cases (with_address p)) [
  | inl e ↦ rw (add_peer, e) refl
  | inr (q, e) ↦ rw (add_peer, e) (ground (arith, lookup-insert (peer_key q) k q m))
]

lookup-add_peers_locked :
    (k : String) (ps : List Peer) (m : Dict String Peer)
    → lookup k (add_peers_locked ps m) ≡ or_else (latest k ps) (lookup k m)
unfolding add_peers_locked
lookup-add_peers_locked k [] m = refl
lookup-add_peers_locked k (p ∷ ps) m =
    lookup-add_peers_locked k ps (add_peer p m)
    ∙ ap (or_else (latest k ps)) (lookup-add_peer k p m)
    ∙ sym (or_else_assoc (latest k ps) (stored k (with_address p)) (lookup k m))

filtered-unless_from :
    (sources : List PeerSource) (k : String) (o : Option Peer)
    → filtered (λ _ p. not (any (λ c. c == p.source) sources)) k o ≡ unless_from sources o
filtered-unless_from sources k none = refl
filtered-unless_from sources k (some p) = ground arith

pub selector_call-entry :
    (k : String) (c : SelectorCall) (s : PeerSelector)
    → IsPeerMap s.peers
    → lookup k (selector_call c s).peers ≡ entry_after k c (lookup k s.peers)
unfolding add_peers set_peers_for_sources
selector_call-entry k (added ps) s h = lookup-add_peers_locked k ps s.peers
selector_call-entry k (refreshed sources ps) s h =
    let keep = λ (_ : String) (p : Peer). not (any (λ c. c == p.source) sources) in
    lookup-add_peers_locked k ps (retain keep s.peers)
    ∙ ap (or_else (latest k ps))
        (lookup-retain keep k s.peers h.0 ∙ filtered-unless_from sources k (lookup k s.peers))

-- After any calls the selector's map holds, under each key, the entry that the calls give it: the
-- last peer added with that key, unless a later refresh of its source left it out.
pub selector_run-entry :
    (cfg : PeerSelectionConfig) (cs : List SelectorCall) (k : String)
    → lookup k (selector_run cfg cs).peers ≡ entry k cs
unfolding new_peer_selector lookup
selector_run-entry cfg [] k = refl
selector_run-entry cfg (c ∷ cs) k =
    selector_call-entry k c (selector_run cfg cs) (selector_run-IsPeerMap cfg cs)
    ∙ ap (entry_after k c) (selector_run-entry cfg cs k)

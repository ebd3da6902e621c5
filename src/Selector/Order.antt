-- ===== src/Selector/Order.antt =====
-- discovery.go, `sortPeers`: the order of peers.
use dmq_lib.Prelude.{
  ◌≡◌, sym, true, false, List, ◌==◌, ==_iff, string_eq, arith, inl, inr, Bool-cases,
}
use dmq_lib.Prelude.Sort.{insert_sorted, insert_sorted_swap}
use dmq_lib.Text.Order.{str_ltb_asym, str_ltb_trans, str_ltb_total}
use dmq_lib.Peer.{Peer}
use dmq_lib.Selector.{peer_key, peer_less}

peer_less_asym : (a b : Peer) → peer_less a b ≡ true → peer_less b a ≡ false
unfolding peer_less
peer_less_asym a b h = ground (
  arith,
  ==_iff a.source b.source,
  ==_iff b.source a.source,
  str_ltb_asym a.source b.source,
  str_ltb_asym a.address b.address,
)

pub peer_less_trans :
    (a b c : Peer) → peer_less a b ≡ true → peer_less b c ≡ true → peer_less a c ≡ true
unfolding peer_less
peer_less_trans a b c h k = ground (
  arith,
  ==_iff a.source b.source,
  ==_iff b.source c.source,
  ==_iff a.source c.source,
  str_ltb_asym a.source b.source,
  str_ltb_trans a.source b.source c.source,
  str_ltb_trans a.address b.address c.address,
)

-- Peers of which neither is less have one key in the selector's map.
peer_less_total :
    (a b : Peer) → peer_less a b ≡ false → peer_less b a ≡ false → peer_key a ≡ peer_key b
unfolding peer_less peer_key
peer_less_total a b h k = ground (
  arith,
  ==_iff a.source b.source,
  ==_iff b.source a.source,
  str_ltb_total a.source b.source,
  str_ltb_total a.address b.address,
)

-- Peers with two keys may be inserted in either order.
pub insert_two :
    (p q : Peer) (ps : List Peer)
    → (peer_key p == peer_key q) ≡ false
    → insert_sorted peer_less p (insert_sorted peer_less q ps)
      ≡ insert_sorted peer_less q (insert_sorted peer_less p ps)
insert_two p q ps h = elim (Bool-cases (peer_less p q)) [
  | inl e ↦ insert_sorted_swap peer_less peer_less_trans p q ps e (peer_less_asym p q e)
  | inr e ↦ elim (Bool-cases (peer_less q p)) [
    | inl f ↦ sym (insert_sorted_swap peer_less peer_less_trans q p ps f (peer_less_asym q p f))
    | inr f ↦ ground (arith, h, ==_iff (peer_key p) (peer_key q), peer_less_total p q e f)
  ]
]

-- ===== src/Selector/Quotas.antt =====
-- What `Select` of discovery.go may and must return.
use Prim.Native.Nat.{min}
use dmq_lib.Prelude.{
  ℕ, ◌+◌, ◌-◌, ◌≤◌, ◌<◌, ◌≡◌, refl, String, Bool, true, false, ◌&&◌, List, [], ◌∷◌, ◌==◌, ==_iff,
  string_eq, length, filter, All, arith, if◌then◌else◌,
}
use dmq_lib.Prelude.Dict.{Dict, lookup, insert, lookup-insert}
use dmq_lib.Prelude.Int.{ℤ, pos, ltb_ℤ}
use dmq_lib.Peer.{
  Peer, PeerSource, peer_source_peer_sharing, peer_source_ledger, peer_source_big_ledger,
}
use dmq_lib.Selector.{
  PeerSelectionConfig, PeerSelector, quota_for_source, is_topology_quota_source, class_count,
  select_loop, select, all_peers,
}

abbrev class_of : PeerSelectionConfig → Peer → String
class_of cfg p = (quota_for_source p.source cfg).0

abbrev quota_of : PeerSelectionConfig → Peer → ℤ
quota_of cfg p = (quota_for_source p.source cfg).1

-- The peers of a list that a quota limits in a class.
abbrev pub limited : PeerSelectionConfig → String → Peer → Bool
limited cfg class p = class_of cfg p == class && ltb_ℤ (pos 0) (quota_of cfg p)

class_count-insert :
    (c class : String) (n : ℕ) (counts : Dict String ℕ)
    → class_count c (insert class n counts) ≡ (if class == c then n else class_count c counts)
unfolding class_count
class_count-insert c class n counts = rw lookup-insert (ground arith)

-- The quota that a class of peers has, if any.
abbrev class_quota : PeerSelectionConfig → String → ℤ
class_quota cfg c =
    if c == "topology"
    then cfg.topology_quota
    else if c == "peer-sharing"
    then cfg.peer_share_quota
    else if c == "ledger"
    then cfg.ledger_quota
    else if c == "big-ledger"
    then cfg.big_ledger_quota
    else pos 0

-- The table of `quotaForSource`, by the answers of its tests.
abbrev table : PeerSelectionConfig → String → Bool → Bool → Bool → Bool → String × ℤ
table cfg c topology sharing ledger big =
    if topology
    then ("topology", cfg.topology_quota)
    else if sharing
    then ("peer-sharing", cfg.peer_share_quota)
    else if ledger
    then ("ledger", cfg.ledger_quota)
    else if big
    then ("big-ledger", cfg.big_ledger_quota)
    else (c, pos 0)

table-class_quota :
    (cfg : PeerSelectionConfig) (c : String) (t s l b : Bool)
    → ltb_ℤ (pos 0) (table cfg c t s l b).1 ≡ true
    → (table cfg c t s l b).1 ≡ class_quota cfg (table cfg c t s l b).0
table-class_quota cfg c true s l b h = refl
table-class_quota cfg c false true l b h = refl
table-class_quota cfg c false false true b h = refl
table-class_quota cfg c false false false true h = refl
table-class_quota cfg c false false false false h = cc

-- One class cannot have two limits.
quota-class_quota :
    (cfg : PeerSelectionConfig) (s : PeerSource)
    → ltb_ℤ (pos 0) (quota_for_source s cfg).1 ≡ true
    → (quota_for_source s cfg).1 ≡ class_quota cfg (quota_for_source s cfg).0
unfolding quota_for_source
quota-class_quota cfg s =
    table-class_quota cfg s (is_topology_quota_source s) (s == peer_source_peer_sharing)
      (s == peer_source_ledger) (s == peer_source_big_ledger)

module _ (cfg : PeerSelectionConfig) (n : ℤ) (c : String) (q : ℕ)
    (same : (p : Peer) → limited cfg c p ≡ true → quota_of cfg p ≡ pos q) where
  select_loop-limited :
      (counts : Dict String ℕ) (taken : ℕ) (ps : List Peer)
      → length (filter (limited cfg c) (select_loop cfg n counts taken ps))
        ≤ q - class_count c counts
  unfolding select_loop
  select_loop-limited counts taken [] = omega arith
  select_loop-limited counts taken (p ∷ ps) =
      let class = class_of cfg p in
      let count = class_count class counts in
      ground (
        arith,
        same p,
        ==_iff class c,
        class_count-insert c class (count + 1) counts,
        select_loop-limited counts taken ps,
        select_loop-limited (insert class (count + 1) counts) (taken + 1) ps,
      )

class_count-nil : (c : String) → class_count c [] ≡ 0
unfolding class_count lookup
class_count-nil c = refl

limited-bound :
    (cfg : PeerSelectionConfig) (c : String) (q : ℕ)
    → class_quota cfg c ≡ pos q
    → (p : Peer) → limited cfg c p ≡ true
    → quota_of cfg p ≡ pos q
limited-bound cfg c q e p h =
    ground (arith, quota-class_quota cfg p.source, ==_iff (class_of cfg p) c)

-- A selection holds no more peers of a limited class than its quota.
pub select-class_quota :
    (s : PeerSelector) (n : ℤ) (c : String) (q : ℕ)
    → class_quota s.cfg c ≡ pos q
    → length (filter (limited s.cfg c) (select s n)) ≤ q
unfolding select
select-class_quota s n c q e = omega (
  arith,
  class_count-nil c,
  select_loop-limited s.cfg n c q (limited-bound s.cfg c q e) [] 0 (all_peers s),
)

select_loop-length :
    (cfg : PeerSelectionConfig) (n : ℕ) (counts : Dict String ℕ) (taken : ℕ) (ps : List Peer)
    → taken < n
    → taken + length (select_loop cfg (pos n) counts taken ps) ≤ n
unfolding select_loop
select_loop-length cfg n counts taken [] h = omega arith
select_loop-length cfg n counts taken (p ∷ ps) h =
    let class = class_of cfg p in
    let count = class_count class counts in
    ground (
      arith,
      select_loop-length cfg n counts taken ps h,
      select_loop-length cfg n (insert class (count + 1) counts) (taken + 1) ps,
    )

-- A selection with a positive limit holds at most that many peers.
pub select-length : (s : PeerSelector) (n : ℕ) → 0 < n → length (select s (pos n)) ≤ n
unfolding select
select-length s n h = omega (arith, select_loop-length s.cfg n [] 0 (all_peers s) h)

-- The class of `c` is used by the sources that its quota limits only.
abbrev Owns : PeerSelectionConfig → String → ℕ → Peer → Type 0
Owns cfg c q p = class_of cfg p ≡ c → quota_of cfg p ≡ pos q

module _ (cfg : PeerSelectionConfig) (n : ℤ) (c : String) (q : ℕ) (positive : 0 < q)
    (no_limit : ltb_ℤ (pos 0) n ≡ false) where
  select_loop-exact :
      (counts : Dict String ℕ) (taken : ℕ) (ps : List Peer)
      → All (Owns cfg c q) ps
      → length (filter (limited cfg c) (select_loop cfg n counts taken ps))
        ≡ min (q - class_count c counts) (length (filter (limited cfg c) ps))
  unfolding select_loop
  select_loop-exact counts taken [] h = omega arith
  select_loop-exact counts taken (p ∷ ps) h =
      let class = class_of cfg p in
      let count = class_count class counts in
      ground (
        arith,
        ==_iff class c,
        class_count-insert c class (count + 1) counts,
        select_loop-exact counts taken ps h.1,
        select_loop-exact (insert class (count + 1) counts) (taken + 1) ps h.1,
      )

-- With no overall limit a selection holds as many peers of a limited class as there are, up to the
-- quota, where no other source uses the name of the class.
pub select-class_exact :
    (s : PeerSelector) (n : ℤ) (c : String) (q : ℕ)
    → 0 < q
    → ltb_ℤ (pos 0) n ≡ false
    → All (Owns s.cfg c q) (all_peers s)
    → length (filter (limited s.cfg c) (select s n))
      ≡ min q (length (filter (limited s.cfg c) (all_peers s)))
unfolding select
select-class_exact s n c q positive no_limit h =
    rw (select_loop-exact s.cfg n c q positive no_limit [] 0 (all_peers s) h, class_count-nil c)
      (omega arith)

-- ===== src/Ledger/Names.antt =====
-- The pools of `bigLedgerPeers` of discovery.go: by ID, or by position where a peer has none.
use Prim.Native.Char.{code}
use dmq_lib.Prelude.{
  ℕ, ◌^◌, ◌<◌, ◌≡◌, refl, ◌∙◌, String, Bool, false, ◌==◌, ==_iff, nat_eq, string_eq, if◌then◌else◌,
  arith, Bool-cases, inl, inr,
}
use dmq_lib.Text.{◌+s◌, format_uint}
use dmq_lib.Text.Digits.{format_uint_inj, append_inj, append_apart}
use dmq_lib.Peer.{LedgerPeer}
use dmq_lib.Ledger.{ledger_peer_pool_key}

pub data PoolName : Type 0 where
  numbered : ℕ → PoolName
  named : String → PoolName

-- The pool of the peer at the position.
abbrev pub pool_name : LedgerPeer → ℕ → PoolName
pool_name p i = if p.pool_id == "" then numbered i else named p.pool_id

abbrev pub is_same : PoolName → PoolName → Bool
is_same (numbered i) (numbered j) = i == j
is_same (numbered i) (named t) = false
is_same (named s) (numbered j) = false
is_same (named s) (named t) = s == t

-- The key of a pool.
abbrev pub name_key : PoolName → String
name_key (numbered i) = "idx:" +s format_uint i
name_key (named s) = "pool:" +s s

pub ledger_peer_pool_key_lem :
    (p : LedgerPeer) (i : ℕ) → ledger_peer_pool_key p i ≡ name_key (pool_name p i)
unfolding ledger_peer_pool_key
ledger_peer_pool_key_lem p i = elim (Bool-cases (p.pool_id == "")) [
  | inl e ↦ rw e refl
  | inr e ↦ rw e refl
]

-- A position in a list that memory can hold.
abbrev pub IsSmall : PoolName → Type 0
IsSmall (numbered i) = i < 10 ^ 20
IsSmall (named s) = Unit

kinds_apart : (s t : String) → ("idx:" +s s == "pool:" +s t) ≡ false
kinds_apart s t = elim (Bool-cases ("idx:" +s s == "pool:" +s t)) [
  | inl e ↦
      let same : code "i" ≡ code "p" =
        append_apart "i" "p" "dx:" "ool:" s t ((==_iff ("idx:" +s s) ("pool:" +s t)).0 e) in
      absurd (omega (arith, same))
  | inr e ↦ e
]

==_comm : (s t : String) → (s == t) ≡ (t == s)
==_comm s t = ground (arith, ==_iff s t, ==_iff t s)

-- Different pools have different keys.
pub name_key_inj :
    (x y : PoolName) → IsSmall x → IsSmall y → (name_key x == name_key y) ≡ is_same x y
name_key_inj (numbered i) (numbered j) h k = ground (
  arith,
  ==_iff (name_key (numbered i)) (name_key (numbered j)),
  ==_iff i j,
  λ (e : name_key (numbered i) ≡ name_key (numbered j)).
      format_uint_inj i j h k (append_inj "idx:" (format_uint i) (format_uint j) e),
)
name_key_inj (numbered i) (named t) h k = kinds_apart (format_uint i) t
name_key_inj (named s) (numbered j) h k =
    ==_comm (name_key (named s)) (name_key (numbered j)) ∙ kinds_apart (format_uint j) s
name_key_inj (named s) (named t) h k = ground (
  arith,
  ==_iff (name_key (named s)) (name_key (named t)),
  ==_iff s t,
  λ (e : name_key (named s) ≡ name_key (named t)). append_inj "pool:" s t e,
)

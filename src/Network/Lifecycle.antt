-- ===== src/Network/Lifecycle.antt =====
-- A service of network.go over its lifetime.
use dmq_lib.Prelude.{ℕ, ◌≡◌, String, Bool, true, Option, none, some, List, nat_eq, string_eq, All}
use dmq_lib.Prelude.Dict.{Dict, lookup}
use dmq_lib.Network.{Service, Connection}

-- The connection is closed, or there is none with the number.
abbrev pub shut : Option Connection → Bool
shut none = true
shut (some c) = c.closed

abbrev pub IsShut : Dict ℕ Connection → ℕ → Type 0
IsShut cs i = shut (lookup i cs) ≡ true

-- A closed service keeps no connection open, and dials no more.
pub record IsOver (outbound : List String) (s : Service) : Type 0 where
  pub closed : s.closed ≡ true
  pub shut_all : All (IsShut s.connections) s.peers
  pub dials : s.outbound ≡ outbound

-- ===== src/Network.antt =====
-- network.go: a node-to-node service. What happens on the wire is an argument of each step: whether
-- the listener starts, how a dial or a handshake ends. A connection has a number; closing it twice
-- does what closing it once does, and its `done` channel is the flag `closed`.
pub mod Backoff
pub mod Calls
pub mod Listening
pub mod Lifecycle
pub mod Starting
pub mod Accepting
pub mod Peering
use dmq_lib.Prelude.{
  ℕ, ◌*◌, ◌%◌, ◌-◌, ◌^◌, String, Bool, true, false, ◌&&◌, ◌||◌, not, Option, none, some, List, [],
  ◌∷◌, ◌++◌, ◌==◌, nat_eq, string_eq, length, filter, any, ltb, if◌then◌else◌, Bytes,
}
use dmq_lib.Prelude.Dict.{Dict, lookup, insert}
use dmq_lib.Prelude.Int.{ℤ, pos, negsuc, ltb_ℤ}
use dmq_lib.Errors.{
  Error, Result, ok, err, sentinel, plain, context, network_magic_required, authentication_required,
}
use dmq_lib.Time.{Duration, seconds, is_nonpositive}
use dmq_lib.Peer.{Peer, peer_source_static}
use dmq_lib.Config.{ReconnectConfig, default_reconnect_config}
use dmq_lib.Selector.{new_peer}
use dmq_lib.Topic.{TopicRuntime}
use dmq_lib.Manager.{Manager, topic, topic_peers, register_service, unregister_service}

pub record NodeToNodeHooks : Type 0 where
  pub on_peer_connected : Bool
  pub on_peer_disconnected : Bool
  pub on_error : Bool

pub record NodeToNodeConfig : Type 0 where
  pub listen_address : String
  pub peers : List Peer
  pub request_interval : Duration
  pub request_count : ℕ
  pub dial_timeout : Duration
  pub reconnect : ReconnectConfig
  pub hooks : NodeToNodeHooks

pub record Connection : Type 0 where
  pub peer : Peer
  pub closed : Bool

-- A call of a hook of the service.
pub data ServiceEvent : Type 0 where
  peer_connected : Peer → ServiceEvent
  peer_disconnected : Peer → Option Error → ServiceEvent
  service_errored : Error → ServiceEvent

-- `peers` and `outbound` have the keys of the maps, `connections` what the pointers point to, and
-- `listening` is whether there is a listener that is not closed.
pub record Service : Type 0 where
  pub id : ℕ
  pub topic_name : String
  pub cfg : NodeToNodeConfig
  pub closed : Bool
  pub listening : Bool
  pub peers : List ℕ
  pub connections : Dict ℕ Connection
  pub outbound : List String
  pub listen_err : Option Error
  pub events : List ServiceEvent

unfoldable pub new_node_to_node_service : ℕ → String → NodeToNodeConfig → Service
new_node_to_node_service id name cfg = record {
  id = id;
  topic_name = name;
  cfg = record cfg { reconnect = default_reconnect_config cfg.reconnect };
  closed = false;
  listening = false;
  peers = [];
  connections = [];
  outbound = [];
  listen_err = none;
  events = [];
}

unfoldable pub request_interval : NodeToNodeConfig → Duration
request_interval cfg =
    if ltb_ℤ (pos 0) cfg.request_interval then cfg.request_interval else seconds 1

unfoldable pub request_count : NodeToNodeConfig → ℕ
request_count cfg = if ltb 0 cfg.request_count then cfg.request_count else 64

unfoldable pub dial_timeout : NodeToNodeConfig → Duration
dial_timeout cfg = if ltb_ℤ (pos 0) cfg.dial_timeout then cfg.dial_timeout else seconds 10

abbrev pub with_source : Peer → Peer
with_source p = if p.source == "" then record p { source = peer_source_static } else p

-- `normalizeNodeToNodePeer`
unfoldable pub normalize_node_to_node_peer : Peer → Option Peer
normalize_node_to_node_peer p =
    if p.address == ""
    then (if p.host == "" then none else some (with_source (new_peer p.host p.port p)))
    else some (with_source p)

-- `AddPeer`; the loop that it starts is in `Backoff`.
pub add_peer_to_service : Service → Peer → Service
add_peer_to_service s peer = elim (normalize_node_to_node_peer peer) [
  | none ↦ s
  | some p ↦
      if s.closed
      then s
      else if any (λ a. a == p.address) s.outbound
      then s
      else record s { outbound = s.outbound ++ p.address ∷ [] }
]

unfoldable pub add_peers_to : Service → List Peer → Service
add_peers_to s [] = s
add_peers_to s (p ∷ ps) = add_peers_to (add_peer_to_service s p) ps

abbrev pub closed_connection : Connection → Connection
closed_connection c = record c { closed = true }

-- `(*nodeToNodePeerConnection).Close`
pub close_connection : ℕ → Dict ℕ Connection → Dict ℕ Connection
close_connection i cs = elim (lookup i cs) [
  | none ↦ cs
  | some c ↦ insert i (closed_connection c) cs
]

pub close_connections : List ℕ → Dict ℕ Connection → Dict ℕ Connection
close_connections [] cs = cs
close_connections (i ∷ is) cs = close_connections is (close_connection i cs)

-- `addConnection`
pub add_connection : Service → ℕ → Service
add_connection s i =
    if s.closed
    then record s { connections = close_connection i s.connections }
    else record s { peers = i ∷ filter (λ j. not (j == i)) s.peers }

pub remove_connection : Service → ℕ → Service
remove_connection s i = record s { peers = filter (λ j. not (j == i)) s.peers }

abbrev pub notify : Service → Bool → ServiceEvent → Service
notify s is_set e = if is_set then record s { events = s.events ++ e ∷ [] } else s

-- The service's part of `callError`; the topic's is `Topic.call_error`.
pub service_error : Service → Error → Service
service_error s e = notify s s.cfg.hooks.on_error (service_errored e)

-- `handleConnection` up to its wait, for a connection with a new number that was made; one that was
-- not is closed by `Peering.close_refused`, and the service keeps nothing of it.
pub connected : Service → ℕ → Peer → Service
connected s i peer =
    let made = record s {
      connections = insert i (record { peer = peer; closed = false }) s.connections;
    } in
    notify (add_connection made i) s.cfg.hooks.on_peer_connected (peer_connected peer)

-- The connection ends, by its peer, an error, or the service's end, and the rest of
-- `handleConnection` runs.
pub disconnected : Service → ℕ → Peer → Option Error → Service
disconnected s i peer ended =
    let gone = record s { connections = close_connection i s.connections } in
    notify (remove_connection gone i) s.cfg.hooks.on_peer_disconnected
      (peer_disconnected peer ended)

-- The end of `acceptLoop`, with the error that it keeps and the one that it reports.
unfoldable pub stop_accepting : Service → Error → Error → Service
stop_accepting s e reported = record (service_error s reported) {
  listen_err = some e;
  listening = false;
}

-- The end of `acceptLoop` on an error of the listener.
unfoldable pub accept_failed : Service → Error → Service
accept_failed s e = stop_accepting s e (context "accept DMQ node-to-node peer" e)

-- The part of `start` that keeps the new listener; it does not look at `closed`.
abbrev pub open_listener : Service → Service
open_listener s = record s { listening = true }

-- `Close`, on the service; `unregister_service` is on the manager.
pub close_service : Service → Service
close_service s = if s.closed then s else record s {
  closed = true;
  listening = false;
  connections = close_connections s.peers s.connections;
}

-- `start`: `cancelled` is the context's error, if it has ended, and `listened` the listener's answer.
unfoldable pub start :
    (Bytes → String)
    → Manager
    → Service
    → Option Error
    → Result (Unit {0})
    → Manager × Service × Option Error
start ip_string m s cancelled listened =
    let listening = if s.cfg.listen_address == "" then s else open_listener s in
    let (m', found) = topic_peers ip_string m s.topic_name in
    let rest : Manager × Service × Option Error = elim found [
      | err e ↦ (unregister_service m' s.id, close_service listening, some e)
      | ok peers ↦ (m', add_peers_to listening (peers ++ s.cfg.peers), none)
    ] in
    elim cancelled [
      | some e ↦ (m, s, some e)
      | none ↦ if s.cfg.listen_address == "" then rest else elim listened [
        | err e ↦ (m, s, some (context "listen DMQ node-to-node address" e))
        | ok _ ↦ rest
      ]
    ]

-- The guards of `StartNodeToNode`.
pub may_start : Manager → String → Result TopicRuntime
may_start m name = elim (topic m name) [
  | err e ↦ err e
  | ok rt ↦
      if rt.cfg.network_magic == 0
      then err (sentinel network_magic_required)
      else if not rt.cfg.authentication.required && not rt.cfg.authentication.allow_unauthenticated
      then err (sentinel authentication_required)
      else ok rt
]

-- `StartNodeToNode`; the number of the new service is an argument.
pub start_node_to_node :
    (Bytes → String)
    → Manager
    → ℕ
    → String
    → NodeToNodeConfig
    → Option Error
    → Result (Unit {0})
    → Manager × Result Service
start_node_to_node ip_string m id name cfg cancelled listened = elim (may_start m name) [
  | err e ↦ (m, err e)
  | ok rt ↦
      let s = new_node_to_node_service id rt.name cfg in
      let (m', refused) = register_service m id in
      let (m'', s', failed) = start ip_string m' s cancelled listened in
      elim refused [
        | some e ↦ (m', err e)
        | none ↦ elim failed [ some e ↦ (unregister_service m'' id, err e) | none ↦ (m'', ok s') ]
      ]
]

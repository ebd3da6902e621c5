-- ===== src/Tests.antt =====
-- Concrete values for the tests and the examples: a small instance of the parameters, a message, a
-- configuration and a topic with one subscriber.
pub mod Slices
pub mod Window
pub mod Selection
pub mod Topics
pub mod Peers
pub mod Managers
pub mod Keys
pub mod Services
pub mod Formats
pub mod Snapshots
use dmq_lib.Prelude.{
  refl, ℕ, ◌/◌, String, Bool, true, false, Option, none, some, List, [], ◌∷◌, Bytes, ltb,
  if◌then◌else◌,
}
use dmq_lib.Prelude.Int.{ℤ, pos, negsuc}
use dmq_lib.Errors.{ok}
use dmq_lib.Time.{Time, nanos_per_second, seconds}
use dmq_lib.Peer.{Peer, zero_peer, DiscoveryConfig, peer_source_static}
use dmq_lib.Wire.{DmqMessage, DmqMessagePayload, Wire, IsWire}
use dmq_lib.Config.{TopicConfig, ManagerConfig, default_topic_config}

-- The whole seconds of a time, zero before the epoch.
abbrev abs_seconds : Time → ℕ
abs_seconds (pos n) = n / nanos_per_second
abs_seconds (negsuc n) = 0

-- The ID of a payload is its body, and a message expires at its time.
abbrev pub sample_wire : Wire
sample_wire = record {
  msg_id = λ m. m.payload.message_id;
  set_message_id = λ m i. record m { payload = record (m.payload) { message_id = i } };
  compute_dmq_message_id = λ p. ok p.message_body;
  validate_message_ttl_at = λ max m now.
      if ltb m.payload.expires_at (abs_seconds now) then some "message has expired" else none;
  encode = λ m. ok m.payload.message_body;
  verify_nil = λ m. none;
}

pub sample_wire-IsWire : IsWire sample_wire
sample_wire-IsWire = record { id_set = λ m i. refl; ttl_set = λ d m i now. refl }

abbrev pub no_ip : Bytes → String
no_ip bytes = ""

abbrev pub sample_message : DmqMessage
sample_message = record {
  payload = record {
    message_id = [];
    message_body = 7 ∷ 8 ∷ [];
    kes_period = 0;
    expires_at = 1000;
  };
  kes_signature = [];
  operational_certificate = record {
    kes_verification_key = [];
    issue_number = 0;
    kes_period = 0;
    cold_signature = [];
  };
  cold_verification_key = [];
}

abbrev pub another_message : DmqMessage
another_message = record sample_message {
  payload = record (sample_message.payload) { message_body = 9 ∷ [] };
}

abbrev pub sample_discovery : DiscoveryConfig
sample_discovery = record {
  topology = none;
  static_peers = [];
  peer_sharing = false;
  peer_sharing_quota = pos 0;
  topology_quota = pos 0;
  ledger_peers = record {
    enabled = false;
    use_ledger_after_slot = pos 0;
    refresh_interval = pos 0;
    target = pos 0;
    big_ledger_target = pos 0;
    provider = none;
    allow_unsupported = false;
  };
}

-- The configuration of zeros, with the hooks set.
abbrev pub sample_config : TopicConfig
sample_config = record {
  network_magic = 2;
  discovery = sample_discovery;
  queue = record { max_messages = pos 0; subscriber_buffer = pos 0; duplicate_ttl = pos 0 };
  ttl = record { default_ttl = pos 0; max_ttl = pos 0; disable = false };
  reconnect = record { initial_backoff = pos 0; max_backoff = pos 0 };
  authentication = record { required = false; authenticator = none; allow_unauthenticated = false };
  hooks = record {
    on_message_accepted = true;
    on_message_rejected = true;
    on_peer_discovered = true;
    on_error = true;
  };
  signer = none;
}

abbrev pub static_peer : String → Peer
static_peer address = record zero_peer { address = address; source = peer_source_static }

-- ===== src/Lib.antt =====
-- A library for CIP-0137 message diffusion (DMQ): topics with their queue, subscribers and peers, the
-- manager that holds them, the protocol flows that fill and serve them, and the signers that stamp
-- their messages. This development models the library's Go code and states what makes it correct.
--
-- The parts, and how they interact. A `Manager` (manager.go) finds a topic by its name and passes
-- each call on to the topic's runtime (topic.go). A submission, local or remote, is validated,
-- authenticated and checked against the remembered IDs; one that is accepted enters the queue and is
-- sent to the subscriptions' channels. A node-to-node service (network.go) keeps the connections of
-- one topic, and each connection runs the message-submission flow (protocol.go), which announces the
-- IDs of the queue and pulls what the peer announces into the topic. Peers come from the configuration,
-- from a topology file and from a ledger snapshot (discovery.go). A topic node (topic_node.go) is a
-- manager with one topic and one service. A message is signed with a KES key (kes_payload.go,
-- signer.go, reloading.go), whose period comes from the network's parameters (cardano.go).
--
-- Which file models what (children of a module in parentheses; a child holds proofs unless it is said
-- otherwise):
--   Prelude           numbers, lists, maps, signed integers, sorting, equality
--   Text, Time        what the code calls of Go's text and time packages (Order, Digits)
--   Encoding          the same of encoding/hex, encoding/base64 and, on bytes, strings (RoundTrip, Trim)
--   Errors            errors.go, and the errors that the other files make
--   Wire              the message types, and the parameter `Wire` for gOuroboros
--   Payload           payload.go (Expiry)
--   Config            types.go and the defaults of discovery.go (Defaults)
--   Peer, Selector    the peers of discovery.go, and `PeerSelector` (Quotas, Order, Ranging;
--                     Entries holds the sequences of calls, Abstract the selector on maps without
--                     an order)
--   Topology          `TopologyPeers` of discovery.go
--   Ledger            `BuildLedgerPeerPools` of discovery.go (Names, Greatest, Collecting, Counting,
--                     Totals, Reaching, Choosing, Stake); Snapshots holds the snapshot providers of discovery.go
--                     (Unnamed, Stakes, Sources)
--   Discovery         `discoverPeers` of discovery.go
--   Topic             topic.go (Channel holds the model of its channels; Wiring, Buffers, Cases,
--                     Invariant, Subscribers, Quiet, Delivery, Memory, Admissible, Admission,
--                     Forgetting, Reporting, Listing)
--   Run               a topic over a sequence of calls (Safety, Once, Kept)
--   Manager           manager.go (Calls holds the sequences of calls; Registration, Isolation,
--                     Lifetime, Shutdown)
--   Submission        protocol.go, message submission: the flow of a connection; Flows holds the flows
--                     of the connections that a configuration serves (Announcing, Acknowledging,
--                     Holding)
--   Local             protocol.go, the node-to-client protocols (Answers)
--   Network           network.go (Backoff also holds the reconnecting loop's waits, Accepting the
--                     loop that accepts peers, Calls the steps of a service; Listening, Lifecycle,
--                     Starting); Peering holds the connection of network.go (Closing, and Life with
--                     the steps of a connection). `start` is one step as a whole, where nobody else
--                     calls the service meanwhile, and its steps are among others' calls in Calls
--   Cardano           cardano.go (Periods)
--   Kes               kes_payload.go and signer.go: what signers share; Signers holds the two
--                     in-process signers, Providers the interface and the signer of messages,
--                     External the signer with a helper program (Signatures, Checked), Certificates
--                     text envelopes and CBOR (Layout), Reloading the wrappers of reloading.go
--                     (Evolution, Progress, Validity, Keys, Reloads)
--   Node              topic_node.go (Assembly)
--   Sharing           the copies of topic.go, signer.go and kes_payload.go, on a memory of arrays:
--                     Owners holds the queue among others who write, Signers what the signers hand
--                     out (Copies; Owners has Growth, Acceptance, Serving, Values, and Calls with the runs)
--   Tests             concrete values, and the examples of the theorems
--
-- How the code is translated. A function of the code has its name in snake case, and a struct its
-- fields. A method that holds a lock is one step on the state; a sequence of steps by any callers is a
-- list of calls. Every reading of the clock is an argument. An instant is its nanoseconds since the
-- epoch, a signed number without bounds; a duration is one too, and `Sub` saturates at 64 bits as
-- Go's does. A monotonic clock is not modelled. The answers of the authenticator, the signers and the
-- snapshot provider are those of functions, one answer for one question. A context that ends is an
-- argument where the code looks at it. Hooks are flags that say whether they are set, with a log of
-- what they are called with. Log lines are left out.
--
-- Slices are their contents: a nil slice is an empty one and a copy is the slice, so the `clone`
-- functions are the identity but for what they compute. Whether the queue may be read so, while
-- callers and subscribers hold slices too, is the matter of Sharing, where a slice is the address
-- of an array; arrays are written to as a whole, and each slice is a whole array. Maps are
-- association lists; the order in which Go ranges over one is that of the list, or any other where
-- a theorem says so. A channel stands in a store by its subscription's number, with its buffer,
-- capacity and whether it is closed; `panicked` records a send on a closed channel or a second
-- close, which would stop the Go program. Services and connections go by numbers, too.
--
-- Numbers. A `uint64` is a natural number whose operations wrap at 2^64 where the code's do, written
-- `% 2 ^ 64`; a conversion to `uint32` wraps at 2^32, behind the checks that the code makes; the reconnect backoff
-- doubles as a signed 64-bit number. The theorems about subscriptions say how many calls may be made
-- before the counter of subscriptions wraps.
--
-- Loops and fuel. Loops over slices recurse on the list. Printing a number has fuel for twenty digits,
-- as many as a 64-bit number has. Moving a KES key has as fuel the number of periods to go, which is
-- enough, since an update moves the key by one. Taking white space off a text has as fuel its length.
--
-- Parameters, for code of other packages: `Wire` with its laws `IsWire` (the ID and the lifetime
-- of a message in gOuroboros), `KesCrypto` with its laws `IsKesCrypto` and `IsPairing` (KES and
-- Ed25519 primitives, key files, CBOR), `Formats` (files, JSON, CBOR and Blake2b for
-- certificates), `GenesisFiles` (reading a Shelley genesis: JSON, a floating-point slot length,
-- the text of a time), `set_message_id` in Sharing (what gOuroboros does with an ID's slice),
-- `ip_string` (the text of an IP address) and `parse` (dingo's topology parser).
--
-- A provider of ledger snapshots, a helper program, a handshake, a multiplexer and a socket are what
-- they answer, as arguments of the steps, and the calls on a connection are a log.
--
-- Not modelled: the scheduling of goroutines below the level of a lock, the option lists of gOuroboros's
-- protocol configurations beside the callbacks and the queue size, log lines, the accessors that only
-- copy a field, and doc.go, which has no code.
mod Prelude
pub mod Encoding
pub mod Errors
pub mod Time
pub mod Text
pub mod Peer
pub mod Wire
pub mod Payload
pub mod Config
pub mod Selector
pub mod Topology
pub mod Ledger
pub mod Discovery
pub mod Cardano
pub mod Kes
pub mod Run
pub mod Manager
pub mod Submission
pub mod Local
pub mod Network
pub mod Node
pub mod Sharing
pub mod Tests
pub mod Topic

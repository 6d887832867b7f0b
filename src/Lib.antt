-- ===== src/Lib.antt =====
-- Verification library of the LXMF implementation in Rust: the crate lxmf-rs.
--
-- A message (lxmf-rs/src/message.rs) is signed, gets a stamp, and goes to a queue of outbound
-- messages (`RnsRouter` of lxmf-rs/src/rns/router.rs), which tries to send it, again after a
-- delay if that fails, and gives it up after some attempts. A receiver decodes it, checks its
-- signature and its stamp, and drops it if its id is in the cache of the ids seen
-- (`DeliveredCache`). Propagation nodes exchange messages with peers (lxmf-rs/src/rns/peer.rs)
-- by requests and responses over links, which a manager of pending requests keeps track of
-- (`RnsRequestManager`).
--
-- Prelude: tests on native numbers, lists, and hash maps as association lists. The order of a
--   map's entries is that of the list, where the program has no fixed one.
-- Crypto: SHA-256, HKDF and Ed25519, which are parameters.
-- Wire: the errors of lxmf-rs/src/error.rs and lxmf-rs/src/rns/mod.rs, MessagePack values (the
--   codec of the crate `rmpv` is a parameter), and the requests and responses of
--   lxmf-rs/src/rns/transport.rs.
-- Stamp: proof of work of lxmf-rs/src/message.rs, from `stamp_workblock` to `validate_pn_stamp`;
--   Stamp/Number and Stamp/Value read hashes as numbers, Stamp/Search is about `generate_stamp`.
-- Transport: lxmf-rs/src/rns/transport.rs. Transport/Outbound has `RnsOutbound::deliver` and the
--   crypto policy, Transport/Inbound the decoders, Addressed and Carried what a message leaves with;
--   Policy, Encrypted, Arrival and Propagated follow a message through them.
-- Message: `LXMessage`. Message/Wire has its bytes, `decode` and `verify`, Message/Stamps has
--   `encode_signed`, `ensure_stamp` and `validate_stamp`, Message/Packed what becomes of it for a
--   propagation node or on paper, Message/Container its form in a file, and Message/Unpacked its
--   way back; Message/Signed and Message/Accepted follow a message from the sender to the
--   receiver.
-- Sync: the messages of the peer sync protocol and their codec.
-- Peer: `Peer` and `PeerTable`; Peer/Queues has `process_queues`, over a propagation store.
-- Router: `DeliveredCache`, `RnsRequestManager`, and in Router/Queue `RnsRouter` with its store
--   (lxmf-rs/src/rns/storage.rs): Send has the attempts, Restore the start from a store
--   (`with_store`), Ledger the histories, Accounts and Attempts what holds after each, Timeouts is
--   about deliveries in flight, Delay about the time between attempts, and Restored about a restart.
--   Router/Runtime is `LxmfRuntime`, whose tick runs the queue; Runtime/Due and Runtime/Front are
--   about what a tick leaves.
--   Router/Tickets is `TicketStore`: Field has the ticket's place in a message, Laws its tables,
--   Given what it takes, Accepted the check of a stamp, and Delivered the way of a ticket from one
--   node to another. Router/SyncNode has the peer sync handlers of `LxmfRouter`, over the fields
--   that they touch, and SyncNode/Payload what a node does with messages from a peer; Exchange is
--   about a whole exchange between two nodes, Stamped, Stored and Taken about what a node takes.
--   Router/Links is `LinkTracker` with the events of links, Links/Clean `clean_links`; Heard,
--   Cleaned, Alive and Lost are about what a cleaning leaves.
-- Propagation: `PropagationStore` of lxmf-rs/src/rns/storage.rs; Tables is about its messages,
--   Peers about who has them, and Codec about the bytes of an entry.
-- Tests: concrete parameters and examples.
--
-- A function keeps its name. A method on `&mut self` takes the state and returns the new one,
-- with its result beside it. `Result` and `Option` are values; `?` is a bind. Words of w bits
-- are native numbers with their wrap-around or their saturation written out; `saturating_sub` is
-- the subtraction of natural numbers. `f64` and the callbacks of the router are not modelled:
-- the one is a parameter, the others see no state.
--
-- The search for a stamp has as many rounds as the code allows itself (`max_rounds`), and what
-- the random source draws in each round is a parameter. `deliver_due`, the loop of a tick, takes
-- fuel, and its theorem says how much is enough: if retries wait, one round more than the queue
-- is long. `drain` counts calls, and the number of calls that is enough is part of its theorem. No
-- other definition takes fuel.
--
-- Not modelled: the asynchronous transport with its links, what `LxmfRouter` does beside the
-- exchange with peers and the cleaning of links, the files of `FileMessageStore`, the directory
-- of propagation nodes, the daemon lxmd-rs, and the copies of other projects (reticulum-patched,
-- LXMF).
pub mod Crypto
pub mod Message
pub mod Peer
pub mod Prelude
pub mod Propagation
pub mod Router
pub mod Stamp
pub mod Sync
pub mod Tests
pub mod Transport
pub mod Wire

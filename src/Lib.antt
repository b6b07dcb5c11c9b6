-- ===== src/Lib.antt =====
-- Verification of iroh-willow, an implementation of the Willow protocols: entries in namespaces,
-- Meadowcap capabilities, and the sync protocol WGPS, with which two peers find out what both may read
-- and reconcile the entries of the areas that they share.
--
-- Parts. A peer keeps entries, payloads, secrets and capabilities in a store (src/store). A session
-- with another peer (src/session) opens with a challenge, binds resources to handles, and reconciles
-- areas; its messages travel through byte channels with flow control (src/util/channel.rs). Users
-- select and delegate capabilities through src/interest.rs and src/store/auth.rs, and ask for a sync by
-- an intent, which the peer manager (src/engine) hands to the session with that peer.
--
-- - Prelude: shared names, Boolean tests, lists on native numbers, maps as association lists.
-- - Model: the library willow_data_model as the parameter DataModel, and a concrete instance.
-- - Store/Events, Store/StoreEvent: the event queue of src/store/memory.rs, and the events and
--   subscription parameters of src/store/traits.rs.
-- - Store/Memory: EntryStore of src/store/memory.rs with ingestion, lookups,
--   snapshots, subscriptions and streams. Its children Scan, Ingest, Antichain and Subscribe/Laws
--   hold the proofs.
-- - Store/Ranges: the ranges of the library willow_data_model and the hash of an entry, as the
--   parameter Ranges. Store/Fingerprint: src/proto/wgps/fingerprint.rs. Store/Split: counting,
--   fingerprints and split_range of the trait EntryReader in src/store/traits.rs, over the in-memory
--   store. Its children Halves, Partition, Fingerprints, Sorting and Times hold the proofs.
-- - Session/Error: the errors of src/session/error.rs, and results, in which a failed unwrap, expect
--   or index is the outcome panicked.
-- - Session/Resource: ResourceMap of src/session/resource.rs. Session/Challenge: the access challenge
--   of src/session/challenge.rs.
-- - Session/Storage: what a session uses of the Storage trait and of the payload store, as the
--   parameter Storage, and the reconciliation messages. Session/StaticTokens: src/session/
--   static_tokens.rs. Session/Payload: CurrentPayload of src/session/payload.rs and EntryState of
--   src/session/reconciler.rs. Session/Target, Session/Reconciler: Target, TargetMap and Reconciler of
--   src/session/reconciler.rs. A target's children are Ranges and Answers (range numbers), Received
--   (the two range messages), and Delivery (what a receiver awaits). The reconciler's are Targets, and
--   Entries (sending entries against receiving them).
-- - Session/InStore: the parameter Storage filled by the in-memory store and Store/Split; its child
--   Coverage is about the ranges of an answer.
-- - Session/Intents: IntentInfo of src/session/intents.rs, with its children Dispatcher for
--   IntentDispatcher and RemainingIntents, and Handle for IntentHandle; Completes takes what an
--   intent was sent to its handle.
-- - Session/Capabilities: src/session/capabilities.rs, on Session/Challenge and Session/Resource; its
--   child Handshake is about what one peer signs and the other validates.
-- - Session/AoiFinder: IntersectionFinder and AoiResources of src/session/aoi_finder.rs.
-- - Session/Pai: src/proto/pai.rs, with the group and the encodings as the parameter Psi.
--   Session/PaiFinder: PaiFinder of src/session/pai_finder.rs, with its child Inputs for what it
--   receives; Shared (group members against fragments), Reactions, Agree, Requests, Known, Succeeds,
--   Gives and Results hold the proofs.
-- - Session/Data: DataSender and DataReceiver of src/session/data.rs, on Session/Payload and
--   Session/StaticTokens. Its children Delivery, Received and Refused hold the proofs.
-- - Engine/PeerManager: PeerManager of src/engine/peer_manager.rs. Its child Output has what the tasks
--   hand back, and the loop, in which a turn takes one tick; Count, Intents, Outputs, Distinct, Conserve
--   (intents), Ties (simultaneous dials), Shutdown and Races hold the proofs.
-- - Util/Guarantees, Util/Channel: src/util/channel.rs. Its children are Effects (what each poll
--   does), Run (all interleavings), Messages, and Waking.
-- - Caps/Meadowcap: the library meadowcap as the parameter Meadowcap, and src/proto/meadowcap.rs.
--   Caps/Interest: src/interest.rs. Caps/CapsStore: CapsStore and SecretStore of src/store/memory.rs.
--   Caps/Auth: src/store/auth.rs. Caps/Resolve: the builder of interests in src/interest.rs, and
--   resolve_interests of src/store/auth.rs. The proofs are in Selection, Best and Import.
-- - Wgps/Channels: the channels of src/proto/wgps/channels.rs, with their identifiers.
--
-- Correspondence. A definition has the name of the function that it models; one that models a part of
-- a function, such as a loop, says so. State is passed explicitly, and an async function that must
-- wait is a poll: it returns pending, and the waker that it registers is a number. Machine integers
-- are native numbers with their wrap-around written out; a subtraction wraps as in a release build.
-- Hash maps and sets are lists without an order that the code relies on.
--
-- Bounds and fuel. Every loop is a recursion over a list, so there is no fuel. Counters are 64 bits
-- wide, and the theorems that need room for them say so.
--
-- Not modelled: networking (src/net.rs), the actor and the client interface (src/engine/actor.rs,
-- src/rpc), the loop that runs a session's parts (src/session/run.rs), the messages and handles
-- of the protocol (messages.rs and handles.rs of src/proto/wgps), the persistent store
-- (src/store/persistent.rs), keys and
-- signatures (src/proto/keys.rs), the forms of entries (src/form.rs), and the encodings. The
-- tasks of the peer manager, which dial, accept, run and close connections, are its environment:
-- what they hand back is a tick. The reconciler takes the store as the parameter Storage, of
-- which Session/InStore fills the part that is the entry store; its reads of a store and its
-- sends of a message do not fail. An intent is a number in the peer manager, and the interests
-- that it resolves to are an input of the dispatcher of intents.
pub mod Prelude
pub mod Model
pub mod Store
pub mod Session
pub mod Util
pub mod Caps
pub mod Wgps
pub mod Engine

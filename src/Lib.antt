-- ===== src/Lib.antt =====
-- The LLM Delegate Protocol crate (src/): a library that lets one agent, the client, delegate tasks
-- to another, the server. Envelopes carry one of twelve message bodies. A client opens a session
-- with a handshake (HELLO, CAPABILITY_MANIFEST, SESSION_PROPOSE, SESSION_ACCEPT or SESSION_REJECT),
-- submits tasks in it, asks for their status, and cancels them. Both sides sign their messages where
-- a secret is configured. The adapter validates what comes back against a delegation contract.
--
-- The parts, by file of the development and of the repository:
--   Common, Common/*        the notation, lists, the maps behind HashMap (association lists without
--                           order), i64 seconds, text, and the monad of fallible actions on a state
--   Externals               what is not in the repository, as a parameter: serde_json's values, f64,
--                           chrono's times, uuid, HMAC-SHA256 in hex, the constant-time comparison
--   Json                    how serde's derived Deserialize reads the fields of a struct
--   Types/*/Wire            the derived Serialize and Deserialize of each type agree
--   Types/Payload           src/types/payload.rs: payload modes and their negotiation
--   Types/Trust             src/types/trust.rs: trust domains
--   Types/Verification,
--   Types/Provenance        src/types/verification.rs, src/types/provenance.rs
--   Types/Error             src/types/error.rs: typed failures
--   Types/Contract          src/types/contract.rs: delegation contracts
--   Types/Capability,
--   Types/Identity          src/types/capability.rs, src/types/identity.rs
--   Types/Session           src/types/session.rs: sessions and when they are active
--   Types/Messages          src/types/messages.rs: bodies and envelopes
--   Types/Messages/Json     the JSON of an envelope and of its body
--   Signing                 src/signing.rs: sign_envelope, verify_envelope, apply_signature
--   Replay                  src/replay.rs: ReplayGuard, over an interface of the lru crate
--   Server                  src/server.rs: LdpServer, its constructors and what only reads it
--   Server/Handlers         src/server.rs: one action for each handler, and handle_message
--   Server/View             what the server promises: an abstract machine over the modes of the open
--                           sessions and the outputs of the tasks, with the view of a server as one
--   Server/Concurrent       several messages handled at once: a step relation, a step for each scope
--                           in which a handler holds a lock
--   Config, Client          src/config.rs, src/client.rs: LdpClient over an interface of reqwest
--   Config/Defaults         what a configuration has where its JSON says nothing
--   SessionManager          src/session_manager.rs: the cache of sessions and the handshake
--   SessionManager/Callers  the same for callers that run concurrently: a step relation, a step for
--                           each scope in which a method holds the lock on the cache,
--                           and for each message of SessionManager/Halves
--   SessionManager/Delivery networks that deliver messages to the server of this crate and its
--                           answers back, which the theorems on both ends take
--   Integration             tests/ldp_integration.rs: the HTTP server in front of a server, and a network
--                           of JSON with it, which is such a network
--   Protocol, Plugin        src/protocol.rs, src/plugin.rs: the trait of adapters, as a record
--                           of its methods, the registry, and the making of adapters
--   Adapter, Adapter/Methods
--                           src/adapter.rs: contract validation, provenance, and the methods
--                           discover, invoke, stream, status and cancel
--   Examples/Quickstart     examples/rust_quickstart.rs: the lines that the program prints
--   Examples/*              small instances of the interfaces, and runs on concrete inputs
--   Examples/UnitTests      the unit tests in the modules of src/, and some of the integration
--                           tests, as statements about the model
-- Proofs stand in child modules named for what they prove.
--
-- State is passed explicitly: LdpServer, SessionManager, ReplayGuard and LdpAdapter are records with
-- the fields of the source, and an operation takes the state to its result and the next state. Where
-- handlers or callers run concurrently, what one does while it holds a lock runs as one step, and so
-- does a message with its answer. The clock and the generator of identifiers are functions of how
-- often they were asked (Entropy), which the state counts; the network is a state of any type that
-- each request may change. Errors of type Result<_, String> are values of Result with the texts of
-- the code.
--
-- Bounds: u64 counters and the cast `as i64` wrap at 64 bits. `to_string` of a number prints at most
-- 20 digits, which is enough below 2^64. The loop of `stream` has no bound in the code; `poll_rounds`
-- gives the events of its first rounds, for any number of rounds.
--
-- JSON: serde_json's values are a parameter with the laws that its documentation gives (JsonLaws,
-- KindLaws). A struct is read from an object and a variant without fields from its text; serde also takes
-- an array of the struct's fields, and an object with the variant as its one key and null under it,
-- forms that no Serialize here writes. A reading that fails gives no text of an error.
--
-- Not modelled: the JSON of LdpSession and of the task types of src/protocol.rs, which no code reads or
-- writes; the logging macros; the trait objects of the registry (it is over any type of adapters);
-- register_ldp_jamjet of src/plugin.rs, which fills the registry of another crate; the sockets and the
-- text of HTTP in tests/ldp_integration.rs, and most of its tests; the Python SDK under sdk/.
pub mod Common
pub mod Externals
pub mod Json
pub mod Types
pub mod Signing
pub mod Replay
pub mod Server
pub mod Integration
pub mod Config
pub mod Client
pub mod SessionManager
pub mod Protocol
pub mod Adapter
pub mod Plugin
pub mod Examples

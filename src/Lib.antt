-- ===== src/Lib.antt =====
-- Verification of KEYMESH: key management, authorization, recovery and threshold signing.
--
-- The crate crates/keymesh-core is pure: it has no clock, no store and no randomness of its own, and
-- every function takes what it needs. The crate crates/keymesh-tss signs with threshold keys: governance
-- decides on a rotation, the lifecycle applies it through the protocols of synedrion, and sessions,
-- envelopes and transports carry the messages of a signature. The crate crates/keymesh-tss-proto is its
-- prototype, with a simulated key generation. Their parts, and the files of them:
--
--   crates/keymesh-core/src/errors.rs             Core/Errors          KeymeshError and its texts
--   crates/keymesh-core/src/serialization/mod.rs  Core/Serialization   Encoder, Decoder, wire states
--   crates/keymesh-core/src/transaction/mod.rs    Core/Transaction     KEYMESH_TX_V1
--   crates/keymesh-core/src/recovery/mod.rs       Core/Recovery        RecoveryRequest
--   crates/keymesh-core/src/policy/mod.rs         Core/Policy          classify
--   crates/keymesh-core/src/crypto/mod.rs         Core/Crypto          CryptoProvider and its mock
--   crates/keymesh-core/src/signing/mod.rs        Core/Signing         signing domains
--   crates/keymesh-core/src/signing/tss.rs        Core/Signing/Tss     identifiers, signing sessions
--   crates/keymesh-tss/src/errors.rs              Tss/Errors           TssError
--   crates/keymesh-tss/src/governance.rs          Tss/RotationStatus   TssRotationStatus
--                                                 Tss/Governance       TssRotationRequest
--   crates/keymesh-tss/src/lifecycle.rs           Tss/Key              TssKeyState, KeyLifecycle
--                                                 Tss/RotationStart    begin_rotation
--                                                 Tss/Lifecycle        dkg, refresh, rotations, key id
--                                                 Tss/Synedrion        the two resharings it runs
--   crates/keymesh-tss/src/dkg.rs                 Tss/Synedrion/Setup  setup_2of3_with_rng
--   crates/keymesh-tss/src/participant.rs         Tss/Synedrion        getters of a participant
--   crates/keymesh-tss/src/session.rs             Tss/Session          SessionBinding, its id, status
--   crates/keymesh-tss/src/handshake.rs           Tss/Session          handshake_validate
--   crates/keymesh-tss/src/envelope.rs            Tss/Envelope         TssEnvelope
--   crates/keymesh-tss/src/identity.rs            Tss/Envelope         ParticipantIdentity
--   crates/keymesh-tss/src/network.rs             Tss/Network          frames, TCP transport
--                                                 Tss/Network/InMemory the in-memory transport
--   crates/keymesh-tss/src/transport.rs           Tss/Transport        SimulatedTransport
--   crates/keymesh-tss/src/signing.rs             Tss/Signing          threshold_sign
--                                                 Tss/Interactive      its interactive run
--   crates/keymesh-tss/src/provider.rs            Tss/Provider         the providers
--   crates/keymesh-tss/src/storage.rs             Tss/Storage          EncryptedShareStore
--   crates/keymesh-tss/src/transcript.rs          Tss/Transcript       SigningTranscript
--   crates/keymesh-tss-proto/src/shamir.rs        TssProto/Shamir      interpolation at zero
--   crates/keymesh-tss-proto/src/dkg.rs           TssProto/Keygen      distributed_keygen
--   crates/keymesh-tss-proto/src/signature.rs     TssProto/Signature   threshold_sign, verify_signature
--   crates/keymesh-tss-proto/src/transport.rs     TssProto/Transport   its limit of rounds
--   crates/keymesh-tss-proto/src/transcript.rs    TssProto/Transcript  SigningTranscript
--
-- session.rs of crates/keymesh-tss-proto is that of crates/keymesh-tss but for comments, and transport.rs
-- but for the limit of rounds, so Tss/Session and Tss/Transport stand for them.
--
-- Quorum is an abstract machine of distinct votes up to a quorum, then a wait, then one start. Of it,
-- RecoveryRequest and TssRotationRequest are implementations (Core/Recovery/Refinement,
-- Tss/Governance/Refinement), and what the two have in common stands there once.
--
-- A function keeps its name; a constructor or a method that two types share has its type's name in
-- front or behind (`new_encoder`, `mock_sign`). A method on `&mut self` returns the new state beside its
-- result, on errors too. `Result A E` of Prelude/Outcome is the source's, and a call that may panic
-- returns an `Option`, in which `none` is the panic. Bytes, `String`s and byte arrays are lists of
-- numbers; a text is its UTF-8 bytes. Where a length or a machine range matters it is a hypothesis
-- (`IsTyped`, `Fits`), and sums that wrap in a release build wrap in the model. No definition needs fuel:
-- every loop runs over a list.
--
-- Serialization: the decoder is a record of the buffer and the cursor, and each read returns the decoder
-- it leaves. Messages are lists of fields over the primitive reads and writes (Core/Serialization/Fields);
-- Transaction and Recovery use the encoder for their canonical bytes.
--
-- Recovery, Governance, Lifecycle: a history is the list of the calls that a request or a key received,
-- its latest call first, and `run` is what they leave. The lifecycle asks a rotation request whether it is
-- executable, and marks it as it goes.
--
-- Libraries are parameters, with what the code relies on as laws. Keccak-256 (tiny-keccak) is `Keccak`
-- of Prelude/Keccak: a function whose results are 32 bytes; nothing is assumed of collisions, and a
-- theorem that depends on them shows the collision. ECDSA (k256) is `Ecdsa` of Tss/Envelope and
-- `SigningLibrary` of TssProto/Signature, its scalars are `Scalar` of TssProto/Field, and the
-- generation of keys is `KeygenLibrary` of TssProto/Keygen. JSON and sockets are `Json` and `Socket`
-- of Tss/Network, the channels of tokio `Mpsc` of Tss/Network/InMemory, the file system and the cipher
-- of the store `FileSystem` and `Custody` of Tss/Storage. The runs of synedrion are `Synedrion` of
-- Tss/Synedrion and `SigningProtocols` of Tss/Interactive: each takes a seed and may return any result or
-- error.
--
-- The lifecycle is written over `Protocols` of Tss/Key, which may return any result, a refresh one of
-- the same threshold, so that its theorems hold whatever the resharings do. Tss/Synedrion/Provision
-- puts the crate's own resharings there. A panic of theirs, which in the code ends the caller too, is
-- an error in that place.
--
-- Not modelled: the permissions of the store's files, whose errors the code ignores; the drawing of network
-- keys; the binaries and the tests; the Solidity contracts, the TypeScript packages and the dashboard.
pub mod Prelude
pub mod Quorum
pub mod Core
pub mod Tss
pub mod TssProto
mod Tests

-- ===== src/Lib.antt =====
-- Seigr Toolset Transmissions: the wire formats, the handshake, the frames, the streams and the
-- websocket connections of the transport library.
--
-- The program is a transport library in Python. Integers go over the wire as variable-length
-- integers (seigr_toolset_transmissions/utils/varint.py) and as the fixed-width fields of Python's
-- struct module. A frame (seigr_toolset_transmissions/frame/frame.py) carries one encrypted payload
-- with its header, and the dispatcher hands a frame to the handler of its type. A stream
-- (seigr_toolset_transmissions/stream/stream.py) puts the payloads back in the order in which they
-- were numbered, and the application reads them. A session
-- (seigr_toolset_transmissions/session/session.py) counts the frames exchanged with a peer and times
-- their answers; session/session_manager.py keeps the sessions by identifier. Two peers agree on a
-- session in four messages (seigr_toolset_transmissions/handshake/handshake.py), which are
-- dictionaries in the tagged binary form of seigr_toolset_transmissions/utils/serialization.py.
-- Frames travel over UDP, or as the binary frames of a websocket
-- (seigr_toolset_transmissions/transport/websocket.py). Binary streams have an encoder and a decoder
-- of their own (seigr_toolset_transmissions/streaming/encoder.py and decoder.py), with the same
-- reordering loop and a flow control by credits. A session can be resumed on another transport by a
-- token (seigr_toolset_transmissions/session/continuity.py), and byte strings are kept, encrypted,
-- under their digest (seigr_toolset_transmissions/storage/binary_storage.py).
--
-- The files, by the code they model, under seigr_toolset_transmissions/:
--   Varint: utils/varint.py, encode_varint, decode_varint and varint_size.
--   Struct: the formats of Python's struct module that the frames use, big endian.
--   Stc: the calls of the crypto context, a parameter (crypto/stc_wrapper.py passes them on).
--   Frame: frame/frame.py, STTFrame: the constructor with __post_init__ and create_frame;
--     Frame/Cipher encrypt_payload and decrypt_payload, Frame/Wire to_bytes and from_bytes,
--     Frame/Dispatcher FrameDispatcher. The constants are those of utils/constants.py.
--   Reorder: the loop that delivers buffered items, of STTStream._handle_incoming and
--     BinaryStreamDecoder.process_segment.
--   Stream: stream/stream.py, class STTStream; Stream/Reader is a stream between a network and an
--     application, as a sequence of arrivals and reads; Stream/Manager is stream/stream_manager.py.
--   Streaming: streaming/encoder.py in Streaming/Encoder, where `send` runs until it stops by itself and
--     `send_until` for a consumer that may leave it at a segment; streaming/decoder.py in Streaming/Decoder.
--   Session: session/session.py, class STTSession; Session/Manager session/session_manager.py, and
--     Session/Idle the SessionManager of session/session.py.
--   Serialization: utils/serialization.py, STTSerializer; Serialization/Utf8 the strict codec of
--     Python's strings, Encode and Decode the two directions, the other children their laws.
--   Handshake: handshake/handshake.py, class STTHandshake; Handshake/Manager HandshakeManager,
--     Handshake/Messages that the messages survive their encoding, Agreement and Exchange the four
--     messages between two handshakes and between two managers, Refusal what the checks accept.
--   Websocket: transport/websocket.py, one connection of WebSocketTransport: Send, Receive, and in
--     Loop the loops of a client and of a server and close; the other children hold the laws.
--   Storage: storage/binary_storage.py, class BinaryStorage, with its files; Storage/Locking, Index,
--     Eviction, Retrieval, Keeping, Use, Restart and Accounting hold the laws.
--   Continuity: session/continuity.py, class CryptoSessionContinuity: Continuity/Registry creates,
--     resumes, saves and expires, Continuity/Challenge makes and verifies proofs; Resume, Proof and
--     Cleanup hold the laws.
--   Relay: nat/relay_server.py, classes RelayServer and RelayProtocol: the handlers are in
--     Relay/Handlers; Soundness, Counters, Keeping and Registry hold the laws.
--   Common: Boolean tests, lists, results, integers, dictionaries and bit operations.
-- A directory's Laws, RoundTrip and other children hold the proofs, its Examples the runs.
--
-- How code becomes definitions. A method that changes its object takes the state and returns the new
-- one; an exception is the `err` of a Result. A reader that moves an offset takes the data behind
-- the offset and returns what is left. A floating-point number is its pattern of 64 bits. Python's
-- integers are ℕ where the code keeps them from being negative, and ℤ where it has to test them. A
-- dict is an association list in insertion order. Clock values are numbers of ticks, handed in;
-- random choices of the encryption are handed in too. A coroutine is a sequence of calls: a wait
-- that nobody ends in time is a result of its own, and so is a wait for a lock that is never released.
--
-- Bounds and fuel. The loops of the varints recurse on a proof of accessibility and have no fuel. The
-- reordering loop has the buffer's length as fuel, and Reorder/Laws shows that it ends because the
-- next item is not there, never for want of fuel. The loop of BinaryStreamEncoder.send recurses on the
-- encoder's credits, of which each round takes one. deserialize has one more than the length of
-- the data as fuel, and so has the receive loop of a websocket, whose frames have two bytes at least.
--
-- Parameters. The Seigr Toolset Crypto package is not part of the repository: Stc and Streaming take
-- its functions as records, and the theorems on decryption suppose that decryption inverts encryption
-- (IsLawful), or that encryption does not raise (IsTotal), and those on stored data that decryption
-- leaves a context of a stream one of that stream (KeepsStream). hash_data is a function that may
-- change with each call. The digest of the storage is any function. Frame handlers are functions. The
-- random bytes of nonces and masks are handed in.
--
-- Left out: the reports (get_stats, floating-point averages and rates), logging, sockets and tasks
-- of asyncio, failures of the disk, the HTTP upgrade and the start and stop of a websocket server with
-- the text of a close reason, the StreamManager of stream/stream.py, which nothing imports, and the node,
-- chamber, event and relay client layers above the streams, and the start and stop of a relay server.
-- JSON, which the relay server reads, is a parameter; an identifier that is NaN, and a node_id of a
-- HELLO that is a floating-point number, are left out.
pub mod Common
pub mod Varint
pub mod Struct
pub mod Stc
pub mod Frame
pub mod Reorder
pub mod Stream
pub mod Streaming
pub mod Session
pub mod Serialization
pub mod Handshake
pub mod Websocket
pub mod Storage
pub mod Continuity
pub mod Relay

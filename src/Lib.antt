-- ===== src/Lib.antt =====
-- leanp2p: verified models of the core of a C++ implementation of the libp2p network stack.
--
-- Parts and files.
-- * Varint models the unsigned LEB128 codecs: `UVarint` (src/multi/uvarint.cpp), the reader
--   `VarintPrefixReader` (src/basic/varint_prefix_reader.cpp), `EncodeVarint`
--   (include/libp2p/basic/encode_varint.hpp) and `appendVarint` (src/multi/multihash.cpp and
--   include/libp2p/protocol_muxer/multiselect/serializing.hpp). A byte is a number below 256, a
--   buffer a list of them, a `uint64_t` keeps its wrap-around as a remainder. A reader is a record,
--   and its two `consume` return the new reader, their answer and the buffer that is left.
-- * Multihash (src/multi/multihash.cpp) is built on both: `createFromBytes` runs the reader.
-- * Multiselect models the protocol negotiation: Multiselect/Wire has the connection, the result of
--   a fallible step and the messages of include/libp2p/basic/read_varint.hpp; Multiselect has
--   `appendProtocol`, `createMessage`, `read1`, `write1` and the two roles of `selectOneOf`
--   (src/protocol_muxer/multiselect.cpp). A connection is the bytes that the peer will have sent,
--   the bytes written so far and the number of writes that succeed; a read of more bytes than come
--   is the connection's error. A coroutine is a function from a connection to a result and the
--   connection behind it, BOOST_OUTCOME_CO_TRY its bind.
-- * Gossip models the gossipsub router of src/protocol/gossip/gossip.cpp and its headers in
--   include/libp2p/protocol/gossip. Four parts keep state of their own: Gossip/TimeCache and
--   Gossip/Promises (time_cache.hpp), Gossip/Backoff (`TopicBackoff`) and Gossip/History (`History`).
--   Gossip/Config has config.hpp. Gossip/Score is the score of the peers (score.hpp): the sum over the
--   topics, what the router tells it (Calls, Deliver) and `onDecay` (Decay, Expiry), with an abstract
--   arithmetic in the place of `double`. Gossip/Router is the router itself: its state, and what it calls as
--   the record `Env`: the score, the cryptography, the generated encoder, the shuffle. Its children
--   are Mesh (graft, prune, the choice of peers), Topics (`getOrCreateTopic`), Broadcast (`publish`,
--   `broadcast`), Membership, Delivery, Ihave and Incoming (the parts of `onMessage`), Balance and
--   Heartbeat (`heartbeat`, `emit_gossip`), Connections (peers, streams, batches) and Reach (the
--   handlers as a step relation); Router/Invariant says what the handlers keep. A `PeerPtr` is the
--   number of an object in a store, since the streams and topics share it. Time is a number of
--   milliseconds (the periods of the configuration have the units of config.hpp) and an argument or
--   a field of the state; where the source reads the clock by a default argument the model has one
--   argument more. A hash map is an association list in the order of insertion, an iterator that the
--   source stores is the key that it stands at. A random draw hands the number of the draws so far
--   to the shuffle. A frame that the writer makes is the message that the generated code encodes.
-- * AddressRepository models `InmemAddressRepository`
--   (src/peer/address_repository/inmem_address_repository.cpp): what it keeps for one peer, and in
--   Repository the table of peers with the time of the clock, in nanoseconds, as an argument. Its signals are left out.
-- * ProtocolRepository models `InmemProtocolRepository`
--   (src/peer/protocol_repository/inmem_protocol_repository.cpp). Names are numbers with their order, and a
--   `std::set` of them an ascending list. History says what the peers have by the calls alone.
-- * ContentIdentifier models src/multi/content_identifier_codec.cpp on Varint and Multihash. A content
--   type is the 32 bits of the `int` that the source keeps it in.
-- * ReadBuffer models src/basic/read_buffer.cpp: the fragments of `ReadBuffer` with their capacities,
--   and `FixedBufferCollector` (Collector). Queue has the calls of a user, for the buffer and for a
--   queue of bytes. How much a `std::vector` grows is the parameter `alloc`.
-- * Network models the parts of src/network that keep connections. Network/Manager is
--   `ConnectionManager` (connection_manager.cpp): peers and connections are numbers, an event that it
--   publishes is noted with the table of that moment, and what the code behind `close` calls is a
--   parameter. Network/Dialer is `Dialer` (dialer.cpp) on it and on AddressRepository: `rotate` runs up to
--   the transport's dial, where the model waits, and `resume` goes on. Dialer/System lets the dials of all
--   peers take turns in any order, Dialer/Alone runs one. Network/Listeners is the table of listeners of
--   `ListenerManager` (listener_manager.cpp); what a listener answers to a call is a function of all the
--   calls so far, and the undefined behaviour of `closeListener` is a result of its own.
-- * Prelude has the shared names: tests, lists, bytes, bits, key equality and association lists.
-- Each part has its concrete inputs in its module Tests.
--
-- Bounds and fuel. The encoders' loops divide a `uint64_t` by 128 in each round, so ten rounds are
-- enough. The responder's loop runs on one round more than the bytes that the connection has: each
-- round takes a message of at least one byte. A dial alone goes on once for each of its addresses. The
-- loop of `ReadBuffer::consume` has a round for each byte to take, and `addAndConsume` calls itself
-- once. All other loops are structural.
--
-- Not modelled: cryptography, TLS and QUIC (third-party libraries), generated protobuf code,
-- logging, dependency injection, the C interface, hash codes and hexadecimal forms; and as yet the
-- router on Gossip/Score (the router has the score as a parameter), `Topic::receive` and the
-- channel behind it, a `Topic` that a user holds after the router has dropped it, the multiaddress
-- and the base codecs (which derive from other projects), the text forms of content identifiers,
-- the repositories of keys and user agents, the streams and protocols of the listener manager, the
-- transport manager, `Dialer::newStream`, subscribers of the bus that call the connection
-- manager, and a `closeConnectionsToPeer` that runs within another. `size_t` counters other than those above do not wrap.
pub mod Prelude
pub mod Varint
pub mod Multiselect
pub mod Multihash
pub mod Gossip
pub mod AddressRepository
pub mod ReadBuffer
pub mod Network
pub mod ProtocolRepository
pub mod ContentIdentifier

-- ===== src/Lib.antt =====
-- The message broker of squawkbus, src/ of the repository, as far as it is modelled here: clients
-- connect over a stream, authenticate, and then subscribe to topics, listen to the subscriptions
-- of others, and send data to the subscribers of a topic or to one client.
--
-- How the parts interact. The Poller waits for its handlers: a listener accepts connections, and
-- a connection is a TcpSocketPollHandler, a queue of chunks that have been read and one of
-- buffers to be written, on a TcpStream, a socket in the clear or under TLS. What it reads it
-- gives to its client, the Distributor, which has an Interactor for each connection. A chunk goes
-- to the FrameReader of the interactor, which cuts the stream into frames. A frame is a
-- FrameBuffer, from which Message::deserialize reads one of nine messages. The interactor hands
-- it to the Hub, which dispatches it to the SubscriptionManager, the NotificationManager or the
-- PublisherManager. These keep tables of interactors by address, call each other, and send
-- messages to interactors, which serialize them and hand the bytes to the poller. The
-- PublisherManager asks the AuthorizationManager for the entitlements of publisher and receiver,
-- and forwards only the packets to which both are entitled.
--
-- Which file models what:
-- - Common: std::map, std::set and their keys as ordered lists (Map, Set, Key, Nested, Ordered),
--   std::int32_t (Int), the outcomes of code that may throw (Results), texts (Text) and the
--   arguments of a command line (Arguments).
-- - Serialization/FrameBuffer: src/serialization/frame_buffer.hpp and network_bytes.hpp. Contents
--   has the bytes that a buffer stands for, Reading and Writing the operations against them.
-- - Serialization/FrameBufferIo: src/serialization/frame_buffer_io.hpp. Wire has the wire format,
--   RoundTrip that each operator writes or reads it.
-- - Serialization/FrameReader: src/serialization/frame_reader.hpp. Abstract is its specification,
--   Refinement, Chunks and Coalesced relate the two.
-- - Messages: src/messages. MessageType for _message_type.hpp, Message for the fields, Codec for
--   serialize_body, deserialize_body, _message.hpp and _message_inline.hpp, Equality for
--   operator== and equals.
-- - Server/Authorization: authorization_cache.cpp, authorization_repository.cpp,
--   authorization_manager.cpp, role.hpp and authorization_spec.hpp of src/server. Coherence is
--   about the cache, File about what an authorization file grants. Server/AuthorizationYaml:
--   authorization_yaml.hpp beside them.
-- - Server/Publishers: src/server/publisher_manager.cpp. Selection is about the packets that are
--   forwarded, Delivery, Unicast and Receivers about what is sent and to whom, Tables and Closing
--   about its two tables.
-- - Server/Subscriptions: src/server/subscription_manager.cpp.
-- - Server/Notifications and Server/Listening: src/server/notification_manager.cpp. The two
--   managers call each other, so that on_listen and add_listener, which ask for subscriptions,
--   are apart.
-- - Server/Authentication: src/server/authentication_repository.cpp and
--   authentication_manager.cpp, with Serialization/BasicToken for src/serialization/b64.hpp and
--   basic_token.hpp.
-- - Server/Specification: src/server/authorization_spec.cpp, and Server/Options:
--   src/server/options.cpp, with the functions of the standard library that they use in
--   Common/Text.
-- - Server/Hub: src/server/hub.cpp. An Event is a call that src/server/distributor.cpp, or an
--   interactor, makes of the hub. Invariant, Delivery, Runs and Reload are about runs of events.
-- - Server/Interactor: send and receive of src/server/interactor.cpp, and Server/Session:
--   process_message and authenticate. Both are for one interactor on its own.
-- - Server/Distributor: src/server/distributor.cpp, with the interactors in its table, and what
--   they ask of the poller. Tracking is about the table.
-- - Server/Program: start_server of src/server/server.cpp.
-- - Io/Ssl: src/io/ssl.hpp and the record Openssl. Io/TcpStream: src/io/tcp_stream.hpp.
--   Io/Transport has what is asked of a connection in the proofs.
-- - Io/TcpSocketPollHandler: src/io/tcp_socket_poll_handler.hpp. Pending has the bytes of the
--   write queue, Sending, Draining and Receiving are about one call, History about any number.
-- - Io/FileStream and Io/FilePollHandler: src/io/file_stream.hpp and file_poll_handler.hpp.
-- - Io/PollHandler: src/io/poll_handler.hpp and tcp_listener_poll_handler.hpp. Io/Poller, with
--   EventLoop: src/io/poller.hpp. Invariant, Requests, Callbacks, Removal, Rounds, Runs and
--   Refusal are about the loop and the callbacks of its client.
-- - Io/Endpoint: src/io/endpoint.hpp.
-- - Client/Options: src/clients/client/options.cpp. Endings is about its parsing, Login about the
--   server's answer. Client/SquawkbusClient: squawkbus_client.cpp beside it, with Client/Input
--   for std::stringstream; Commands follows what is typed from the console to the server.
-- - Examples: the theorems at concrete inputs.
--
-- How state and effects are written. An object is a record of its members, and an operation is a
-- function from the state before to the state after, with the messages sent, in order, as a list
-- of Sent; Done adds the exception that left the operation, where one can. A message that an
-- operation sends is a call of Interactor::send: what the poller does with it is not part of the
-- operation. A callback of the poller's client yields its new state, its calls of the poller, and
-- its exception. An Interactor* is an Address, a number, by which the maps are ordered. The
-- managers keep such pointers, so that an address may be that of an interactor that has been
-- freed: reading the user, host or id of one, or calling its send, is undefined behaviour, which
-- the multicast, the announcements to a new listener and the messages of a publisher that closes
-- have as their exception. The interactors that notify and the unicast send to are taken to be
-- there. Members that the source copies before it changes them are copied in the model too.
--
-- Bounds and fuel. Chars are their eight bits, 0 to 255. FrameBuffer::size sums in an int and
-- returns a size_t: the model keeps both conversions, and the theorems ask for fewer than 2 ^ 31
-- bytes. A length on the wire has 32 bits. FrameBuffer::read has fuel for two rounds for each
-- fragment and one to stop, the loop of Interactor::receive for each frame and one to stop, and
-- the theorems show that this is enough. The loop that writes has fuel for each byte to be
-- written and one to stop, the loop that reads has a budget that the connection's state gives,
-- and the parsers of options a round for each argument and one to stop. The event loop runs for
-- the rounds it is given. The counts of subscriptions and listeners are int in the source and
-- natural numbers here: an overflow needs 2 ^ 31 requests.
--
-- Parameters. std::regex is the record Regex: which patterns compile, and what they match.
-- Matching is taken to end without an exception: the standard library lets an implementation
-- throw where a match is too complex, which depends on it and on the machine. yaml-cpp is a
-- function from a path to what the file decodes to, or to an exception, and for the conversions
-- of its nodes the record Nodes. What the managers read of an interactor, its user, host and id,
-- is a function of its address to a Peer, which also says whether the interactor has been freed.
-- Allocation never fails. A connection is any type, with the functions of the record Openssl for
-- what BIO and SSL do on it, and System has `accept` and `close`. A round says what `poll` gives.
-- Surroundings has what the distributor asks of files and of uuid::generate.
--
-- Interfaces. The client of the poller is the record PollClient, whose laws are IsTracking; the
-- distributor fills both. The client program's callbacks are apart from it, since they may exit.
-- Its console is a FilePollHandler that reads at most 1024 bytes at a time, each of which on_read
-- takes for a command. What an interactor asks of the authentication manager is the record
-- Authenticator, which Server/Authentication fills, and receive is stated for any function that
-- processes a message. MD5 of OpenSSL is an argument, a function from the bytes that a context is
-- updated with to their digest, and the lines of the password file are what std::getline yields.
--
-- Not modelled: the system calls of sockets and files, the contexts and certificates of TLS
-- (src/io/ssl_ctx.hpp), the constructor of the listening handler, both main functions and their
-- signals; src/logging; the str methods, which only print; and externals.
pub mod Common
pub mod Serialization
pub mod Messages
pub mod Io
pub mod Client
pub mod Server
pub mod Examples

-- ===== src/Io.antt =====
-- src/io: sockets, TLS and the poll loop. The calls of the system and of OpenSSL are arguments.
pub mod Endpoint
pub mod Ssl
pub mod Transport
pub mod TcpStream
pub mod TcpSocketPollHandler
pub mod PollHandler
pub mod FileStream
pub mod FilePollHandler
pub mod Poller

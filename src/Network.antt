-- ===== src/Network.antt =====
-- epoll_vs_multithreaded_io/network: sockets, connections, and the two TCP servers, on Linux.
pub mod System
pub mod Partial
pub mod Socket
pub mod Connection
pub mod Listener
pub mod Server
pub mod Message
pub mod Reactor
pub mod PerClient
pub mod Automation

-- ===== src/Stack.antt =====
-- src/ST87M01_CellularStack.cpp: sockets, DNS, TLS profiles and receive buffers.
pub mod Types
pub mod Slots
pub mod Ip
pub mod Lifecycle
pub mod Connect
pub mod Send
pub mod Receive
pub mod Events
pub mod Session
pub mod Valid
pub mod Guarantees
pub mod Locking
pub mod Talk
pub mod Options
pub mod Polling
pub mod Sent
pub mod Stream
pub mod Wakeup
pub mod Isolation
pub mod Lifetime
pub mod Entry
pub mod Tests
pub mod Trials

-- ===== src/Clients.antt =====
-- The interfaces of a client (service.go) and the clients for tests that wrap another (testclients/).
pub mod Methods
pub mod Client
pub mod Erroring
pub mod Sleepy
pub mod Stacks
pub mod Tests

-- ===== src/Client.antt =====
-- src/clients/client: a program to talk to the server by hand.
pub mod Options
pub mod Input
pub mod SquawkbusClient

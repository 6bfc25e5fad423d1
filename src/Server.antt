-- ===== src/Server.antt =====
-- src/server: the managers behind the hub, and the hub.
pub mod Effects
pub mod Notifications
pub mod Subscriptions
pub mod Listening
pub mod Authorization
pub mod Publishers
pub mod Hub
pub mod Interactor
pub mod Session
pub mod Authentication
pub mod Distributor
pub mod Program
pub mod Specification
pub mod Options
pub mod AuthorizationYaml

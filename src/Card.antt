-- ===== src/Card.antt =====
-- src/card/base: APDUs, connections to a card and the commands over them, chains of certificates, CHATs.
pub mod CommandApdu
pub mod ResponseApdu
pub mod Certificates
pub mod ChainBuilder
pub mod AccessRight
pub mod Chat
pub mod Builders
pub mod Connection
pub mod Commands
pub mod Eac
pub mod Detection
pub mod SecureMessaging

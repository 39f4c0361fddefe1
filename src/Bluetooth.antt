-- ===== src/Bluetooth.antt =====
-- src/card/bluetooth: the SIM access messages that the app exchanges with a Bluetooth card reader.
pub mod Message
pub mod Parser
pub mod RoundTrip
pub mod Exchange
pub mod BluetoothCard

-- ===== src/Tests.antt =====
-- Runs of the definitions on concrete inputs.
mod CardTests
mod ConnectionTests
mod BluetoothTests
mod PaceTests
mod ECardApiTests
mod CertificatesTests
mod ChatTests
mod ChangePinTests
mod SecureMessagingTests
mod TrustedChannelTests
mod RightsTests
mod EacTests

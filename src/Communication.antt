-- ===== src/Communication.antt =====
-- packages/communication/src/index.js: channels, messages and who may see them.
pub mod Channels
pub mod Messages
pub mod Notifications
pub mod Access
pub mod Sending
pub mod Searching

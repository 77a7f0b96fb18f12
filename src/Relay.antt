-- ===== src/Relay.antt =====
-- servak_na_winapi_relays/source: the server between users and relays in the field. A relay reports
-- its outputs every few seconds and takes a command with the answer; users press buttons.
pub mod Rand
pub mod Store
pub mod Rele
pub mod Update
pub mod Buttons
pub mod LogFile
pub mod Names
pub mod Request
pub mod Answer
pub mod Handlers
pub mod Decode
pub mod Server
pub mod Established

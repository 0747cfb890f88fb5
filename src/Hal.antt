-- ===== src/Hal.antt =====
-- src/hal: the codec of the EEPROM and the secret stores.
pub mod Codec
pub mod Secrets
pub mod Memory
pub mod Eeprom
pub mod Preferences

-- ===== src/Config.antt =====
-- common/gdm-settings-utils.c, common/gdm-settings-desktop-backend.c, common/gdm-settings.c and
-- common/gdm-settings-direct.c: the configuration. Values are texts in key files; the runtime file
-- stands before the custom one, and the schemas give each key its signature and its default.
pub mod Integers
pub mod Values
pub mod KeyFile
pub mod Stack
pub mod Lookup
pub mod Keys
pub mod Schemas
pub mod Documents
pub mod Direct
pub mod Typed
mod Tests

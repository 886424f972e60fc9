-- ===== src/Storage.antt =====
-- internal/storagepath, internal/credentials and internal/listenstore: the files of the agents.
pub mod Base64
pub mod Components
pub mod Utf8
pub mod Credentials
pub mod Found
pub mod Cursor

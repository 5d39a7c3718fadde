-- ===== src/Build.antt =====
-- build.rs: the script that writes config.rs, the settings of the machine that the program is
-- compiled with. A string is given by its UTF-8 bytes, and `none` is a panic, which ends the build.
pub mod Str
pub mod Unquote
pub mod Profile
pub mod Addr
pub mod Settings
pub mod Libc
pub mod Env
pub mod Format
pub mod Script
pub mod Reader
pub mod Functions
pub mod Generated
pub mod Compiled
pub mod Reproducible

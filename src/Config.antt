-- ===== src/Config.antt =====
-- package/zebrafish-config: the command-line tool that reads and edits the TOML files.
pub mod KeyPath
pub mod Value
pub mod Schema
pub mod Shell
pub mod TomlEdit
pub mod Write
pub mod Files
pub mod Commands
pub mod Listing
pub mod Validate
pub mod CommandLine
pub mod Program
pub mod Efi
mod Tests
mod FileTests
mod RunTests
mod SchemaTests
mod ProgramTests
mod EfiTests

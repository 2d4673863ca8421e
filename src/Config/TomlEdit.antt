-- ===== src/Config/TomlEdit.antt =====
-- The crate `toml_edit` as package/zebrafish-config uses it: the types and calls that src/set.rs,
-- src/remove.rs and src/add.rs name, and the documented behaviour that they rely on. A document
-- is its root table (`DocumentMut` dereferences to it). `Item` stands for the items that are not
-- `Item::None`, which `get` never returns. A change through `get_mut`, `index_mut` or `entry` is
-- `put`, which stores what the reference then holds.
mod Defs
pub mod Paths
pub mod Model
pub use Defs.*

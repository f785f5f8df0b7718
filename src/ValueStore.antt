-- ===== src/ValueStore.antt =====
-- packages/value-store/src: the value store, its errors, the validation of its values, and the stores
-- over a JavaScript `Map` and over Web Storage.
pub mod Errors
pub mod Validation
pub mod Capture
pub mod Store
pub mod Memory
pub mod WebStorage
mod Tests

-- ===== src/Model.antt =====
-- pkg/model: the types and functions that the handler, the steps and the plugins share.
pub mod Error
pub mod Result
pub mod Json
pub mod Version
pub mod Context

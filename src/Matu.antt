-- ===== src/Matu.antt =====
-- lib/matu.h: a row store with a small SQL dialect over one B+tree.
pub mod Condition
pub mod Row
pub mod Store

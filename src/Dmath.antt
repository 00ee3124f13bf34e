-- ===== src/Dmath.antt =====
-- The numbers of dmath/.
pub mod Integer
pub mod Quantity
pub mod Rsa
pub mod Bq

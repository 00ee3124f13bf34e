-- ===== src/Bif.antt =====
-- The barter server's own layer (bif/).
pub mod Codec
pub mod Hash
pub mod Trader
pub mod Shell

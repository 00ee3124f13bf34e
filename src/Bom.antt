-- ===== src/Bom.antt =====
-- The barter object model (bom/): accounts, denominations, values, offers, notes and events, kept in
-- the tables of a Berkeley DB environment.
pub mod Store
pub mod Text
pub mod Value
pub mod Event
pub mod Denom
pub mod Acct
pub mod Offer
pub mod Tid
pub mod Portfolio
pub mod Note
pub mod Holdings

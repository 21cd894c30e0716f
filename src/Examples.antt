-- ===== src/Examples.antt =====
-- The theorems at concrete inputs, and tests of the definitions.
mod Money
mod Draws
mod Tickets
mod Accounts
mod Limits
mod Sessions
mod Tiers
mod Rounds
mod Withdrawals
mod Grants

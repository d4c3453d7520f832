-- ===== src/Tests.antt =====
-- The properties at concrete inputs.
mod Data
mod Runner
mod Settlements
mod Judging
mod Envelope
mod Enrolling
mod Quotes
mod Wallets
mod Orca
mod Rebalancing
mod Instances
mod Flagship
mod Templates

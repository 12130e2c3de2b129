-- ===== src/Tests.antt =====
-- Concrete runs of the definitions, and of the theorems at an input where their conditions hold.
mod Money
mod Providers
mod Credentials
mod Turns
mod Funds
mod Limits
mod Reversals
mod Payments
mod Routing

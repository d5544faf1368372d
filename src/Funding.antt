-- ===== src/Funding.antt =====
-- src/services/investment.service.ts and src/services/investor-acknowledgement.service.ts: how
-- investors fund a published invoice.
pub mod Terms
pub mod Invest
pub mod Commit
pub mod Create
pub mod Rows
pub mod Accepts
pub mod Committed
pub mod Checks
pub mod Creation
pub mod Pot
pub mod Race
pub mod Ends
pub mod Alone
pub mod Ack
pub mod Dashboard
pub mod Refund
pub mod Tests

-- ===== src/Settlement.antt =====
-- Settling a funded invoice: src/services/settlement.service.ts and src/lib/investor-return.ts.
pub mod Returns
pub mod Intents
pub mod Finish
pub mod Rows
pub mod Saga
pub mod Tests

-- ===== src/Invoice.antt =====
-- The life of an invoice: the checks before it is published (src/lib/validate-invoice-for-publish.ts)
-- and the state machine that every status change goes through (src/lib/invoice-state-machine.ts).
pub mod Publish
pub mod Rules
pub mod Machine
pub mod Tests

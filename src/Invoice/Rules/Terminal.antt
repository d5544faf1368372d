-- ===== src/Invoice/Rules/Terminal.antt =====
-- The statuses that end an invoice's life.
use ss_backend.Common.{none}
use ss_backend.Models.{admin, Invoice}
use ss_backend.Invoice.Rules.{TransitionActor, TransitionContext}

abbrev an_admin : TransitionActor
an_admin = record { role = admin; id = none; wallet = none }

abbrev no_context : TransitionContext
no_context = record { funded_amount = none; reason = none }

-- ===== src/Models.antt =====
-- The rows that the modelled services read and write: src/types/enums.ts and src/models/*.model.ts.
-- Amounts are decimal(18,4) columns, kept as a count of 0.0001 units. Times are milliseconds.
-- Identifiers, wallet addresses and hashes are texts. Columns that no modelled code reads are left
-- out, and so are the hooks of the entities that normalise a row before it is written. A table is the
-- list of its rows, oldest first.
use ss_backend.Common.{ℕ, ℤ, ◌==◌, String, Bool, Option, List}

pub data InvoiceStatus : Type 0 where
  draft pending published funded settled cancelled rejected failed : InvoiceStatus

-- The place of a status in its enum, by which two are compared.
abbrev pub status_index : InvoiceStatus → ℕ
status_index draft = 0
status_index pending = 1
status_index published = 2
status_index funded = 3
status_index settled = 4
status_index cancelled = 5
status_index rejected = 6
status_index failed = 7

abbrev pub status_eq : InvoiceStatus → InvoiceStatus → Bool
status_eq a b = status_index a == status_index b

pub data KycStatus : Type 0 where
  pending in_review approved rejected expired : KycStatus

pub data InvestmentStatus : Type 0 where
  pending confirmed settled cancelled : InvestmentStatus

pub data ListingStatus : Type 0 where
  active sold cancelled expired : ListingStatus

pub data IntentStatus : Type 0 where
  prepared submitting distributed completed : IntentStatus

pub data ActorRole : Type 0 where
  seller admin system : ActorRole

pub data TransitionReason : Type 0 where
  seller_submitted seller_published seller_batch_published seller_cancelled : TransitionReason
  admin_approved admin_cancelled fully_funded admin_settled on_chain_settled : TransitionReason
  admin_rejected maturity_settled maturity_underfunded : TransitionReason

pub record Invoice : Type 0 where
  pub id : String
  pub seller_id : String
  pub invoice_number : String
  pub amount : ℕ
  pub discount_rate : ℕ  -- in hundredths of a percent
  pub net_amount : ℕ
  pub funded_amount : ℕ
  pub due_date : Option ℕ  -- null when the stored value is no date
  pub ipfs_hash : Option String
  pub status : InvoiceStatus
  pub rejection_reason : Option String
  pub settlement_remainder : Option ℤ
  pub funding_deadline : Option ℕ
  pub version : ℕ  -- counts the writes of the row

pub record StatusHistory : Type 0 where
  pub invoice_id : String
  pub from_status : InvoiceStatus
  pub to_status : InvoiceStatus
  pub actor_role : ActorRole
  pub actor_id : Option String
  pub trigger : TransitionReason
  pub reason : Option String

pub record Investment : Type 0 where
  pub id : String
  pub invoice_id : String
  pub investor_id : String
  pub investor_wallet : Option String
  pub funding_block : Option ℕ
  pub investment_amount : ℕ
  pub expected_return : ℕ
  pub actual_return : Option ℕ
  pub status : InvestmentStatus

-- That a wallet has acknowledged a version of the terms.
pub record InvestorAcknowledgement : Type 0 where
  pub wallet_address : String
  pub user_id : Option String
  pub terms_version : String
  pub acknowledged_at : ℕ

pub record User : Type 0 where
  pub id : String
  pub kyc_status : KycStatus
  pub stellar_address : Option String

-- One investor of a prepared payout; the return is in stroops (10^-7).
pub record IntentInvestment : Type 0 where
  pub id : String
  pub investor_id : String
  pub investment_amount : ℕ
  pub recipient_address : String
  pub return_amount_stroops : ℕ

-- The payload is stored as JSON text and read back whole: the model keeps the value.
pub record IntentPayload : Type 0 where
  pub proceeds : ℕ
  pub actor_wallet : String
  pub seller_id : Option String
  pub trigger : TransitionReason
  pub fee_recipient : String
  pub fee_bps : ℕ
  pub investments : List IntentInvestment

pub record SettlementIntent : Type 0 where
  pub id : ℕ  -- the uuid that the database draws, as a serial number
  pub invoice_id : String
  pub status : IntentStatus
  pub payload : IntentPayload
  pub transaction_hash : Option String

pub record InvestorReturn : Type 0 where
  pub invoice_id : String
  pub investment_id : String
  pub investor_id : String
  pub return_amount : ℕ

pub record SettlementRemainder : Type 0 where
  pub invoice_id : String
  pub remainder_amount : ℤ
  pub total_settlement_amount : ℕ
  pub total_distributed_amount : ℕ

-- Payments; every row that the modelled code writes is of type PAYMENT and COMPLETED.
pub record Transaction : Type 0 where
  pub user_id : String
  pub invoice_id : String
  pub investment_id : Option String
  pub amount : ℕ
  pub stellar_tx_hash : String

pub record SecondaryListing : Type 0 where
  pub id : String
  pub invoice_id : String
  pub seller_wallet : String
  pub seller_id : Option String
  pub quantity : ℕ
  pub price_per_fraction : ℕ
  pub total_price : ℕ
  pub status : ListingStatus
  pub expires_at : ℕ
  pub cancellation_reason : Option String

pub record Db : Type 0 where
  pub invoices : List Invoice
  pub deleted_invoices : List Invoice  -- deleted softly: the queries do not see them
  pub history : List StatusHistory
  pub investments : List Investment
  pub users : List User
  pub intents : List SettlementIntent
  pub returns : List InvestorReturn
  pub remainders : List SettlementRemainder
  pub transactions : List Transaction
  pub listings : List SecondaryListing
  pub acknowledgements : List InvestorAcknowledgement
  pub next_id : ℕ  -- the next identifier that the database draws

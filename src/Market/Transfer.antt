-- ===== src/Market/Transfer.antt =====
-- What a sale does to the holdings of an invoice.
use ss_backend.Common.{
  ℕ, String, ◌≡◌, Bool, true, false, some, List, [], ◌∷◌, if◌then◌else◌, str_eq, find, sum_by, All,
}
use ss_backend.Models.{Investment}
use ss_backend.Settlement.Intents.{is_backing}

-- What the confirmed holdings of an invoice come to.
abbrev pub backed : String → Investment → ℕ
backed i v = if is_backing i v then v.investment_amount else 0

abbrev pub total_backing : String → List Investment → ℕ
total_backing i = sum_by (backed i)

abbrev has_id : String → Investment → Bool
has_id id v = str_eq v.id id

-- The row that an identifier finds.
abbrev IsRow : List Investment → Investment → Type 0
IsRow table v = find (has_id v.id) table ≡ some v

abbrev pub AreDistinct : List Investment → Type 0
AreDistinct [] = Unit
AreDistinct (v ∷ vs) = All (λ w. str_eq w.id v.id ≡ false) vs × AreDistinct vs

-- Rows of the table, each once, that back the invoice.
record AreHoldings (i : String) (vs table : List Investment) : Type 0 where
  rows : All (IsRow table) vs
  distinct : AreDistinct vs
  backing : All (λ v. is_backing i v ≡ true) vs

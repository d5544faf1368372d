-- ===== src/Funding/Race/Refines.antt =====
-- The steps of Funding/Race.antt, as steps of the pot of Funding/Pot.antt.
use mathlib.Core.Option
use ss_backend.Common.{String, All}
use ss_backend.Models.{Invoice, Db}
use ss_backend.Funding.Invest.{InvestConfig}
use ss_backend.Funding.Pot.{Pot, PotStep}
use ss_backend.Funding.Race.{Race, IsBooked}
use ss_backend.Funding.Race.Progress.{Progress, pot}
use ss_backend.Funding.Race.Calls.{IsKnown, All-keep}

-- The invoice is booked, and every call knows what it has read.
pub record IsReady (i : String) (r : Race) : Type 0 where
  pub booked : IsBooked i r.db
  pub known : All (IsKnown r.db) r.calls

abbrev Advance : (i : String) (r r' : Race) → IsReady i r → Type 0
Advance i r r' v = (v' : IsReady i r') × PotStep (pot v.booked) (pot v'.booked)

module _ (config : InvestConfig) (i : String) where
  written :
      (r : Race) (db' : Db)
      → Progress i r.db db'
      → (v : IsReady i r) → Advance i r (record r { db = db' }) v
  written r db' p v =
      let (b, s) = p.kept v.booked in
      (record { booked = b; known = All-keep r.calls r.db db' p.newer v.known }, s)

-- ===== src/Settlement/Tests.antt =====
-- Concrete cases of the theorems about the division of the proceeds and the writes of intents.
use ss_backend.Common.{◌≡◌, List, [], ◌∷◌, arith, pos, ok, err, service_error, range_error, ◌↔◌}
use ss_backend.Settlement.Returns.{Holding, InvestorReturns, calculate_investor_returns}
use ss_backend.Settlement.Returns.Solvency.{Divides, calculate-Divides, Fails, calculate_errors}

abbrev holdings : List Holding
holdings =
    record { id = "a"; investor_id = "ann"; investment_amount = 100 }
    ∷ record { id = "b"; investor_id = "bob"; investment_amount = 200 }
    ∷ []

calculate-Divides_example :
    (r : InvestorReturns) × (calculate_investor_returns holdings (pos 1_001) 250 ≡ ok r)
    × Divides holdings 1_001 250 r
calculate-Divides_example =
    calculate-Divides holdings 1_001 250 (omega arith) (omega arith) (omega arith)

calculate_errors_example :
    (calculate_investor_returns holdings (pos 3) 20_000 ≡ err (service_error range_error 500))
    ↔ Fails holdings 20_000 (pos 3) (service_error range_error 500)
calculate_errors_example = calculate_errors holdings (pos 3) 20_000 (service_error range_error 500)

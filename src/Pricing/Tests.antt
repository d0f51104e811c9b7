-- ===== src/Pricing/Tests.antt =====
-- Prices and times at concrete values.
use globuy.Prelude.{true, some}
use globuy.Pricing.Cost.{Answers, decimal, calculate_domestic_cost, cost-Answers}

-- Two pieces at 19.995 with 5.5 for shipping.
cost-Answers_example :
    Answers
      (decimal 19995 3)
      (some 2)
      (some (decimal 55 1))
      true
      (calculate_domestic_cost (decimal 19995 3) (some 2) (some (decimal 55 1)) true)
cost-Answers_example = cost-Answers (decimal 19995 3) (some 2) (some (decimal 55 1)) true

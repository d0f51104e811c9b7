-- ===== src/Pricing/Cost.antt =====
-- app/tools/costs.py. A finite decimal that is not negative is its digits with its number of
-- places behind the point; amounts are below the 28 digits that decimal computes with. The result's
-- formula and messages are left out, and its amounts are cents.
use globuy.Prelude.{
  inl, inr, ◌⊎◌, zero, suc, ◌<◌, ℕ, ◌+◌, ◌*◌, ◌/◌, ◌^◌, ◌≤◌, ◌≡◌, refl, Bool, true, false, Option,
  none, some, ◌==◌, if◌then◌else◌, arith,
}
use native.Mathlib.Numerals.{unary_clauses}

-- What `Decimal(str(value))` reads: a number, a negative one, or nothing finite.
pub data Amount : Type 0 where
  decimal : (digits places : ℕ) → Amount
  negative not_finite unreadable : Amount

pub data CostError : Type 0 where
  invalid_number invalid_amount wrong_currency invalid_quantity : CostError

pub data CostResult : Type 0 where
  refused : CostError → CostResult
  insufficient_data : (merchandise_cost : ℕ) → CostResult
  ok : (merchandise_cost shipping_fee total_cost : ℕ) → CostResult

-- ROUND_HALF_UP to cents.
unfoldable pub to_cents : ℕ → ℕ → ℕ
to_cents digits places = (digits * 200 + 10 ^ places) / (2 * 10 ^ places)

pub data Money : Type 0 where
  cents : ℕ → Money
  bad : CostError → Money

unfoldable pub money : Amount → Money
money (decimal digits places) = cents (to_cents digits places)
money negative = bad invalid_amount
money not_finite = bad invalid_amount
money unreadable = bad invalid_number

abbrev pub add_shipping : ℕ → Money → CostResult
add_shipping merchandise (bad e) = refused e
add_shipping merchandise (cents fee) = ok merchandise fee (merchandise + fee)

abbrev pub with_shipping : ℕ → Option Amount → CostResult
with_shipping merchandise none = insufficient_data merchandise
with_shipping merchandise (some fee) = add_shipping merchandise (money fee)

abbrev pub with_price : Money → ℕ → Option Amount → CostResult
with_price (bad e) quantity shipping = refused e
with_price (cents price) quantity shipping = with_shipping (price * quantity) shipping

-- `is_cny` says whether the normalised currency is CNY; a quantity that is no positive whole
-- number is none.
unfoldable pub calculate_domestic_cost : Amount → Option ℕ → Option Amount → Bool → CostResult
calculate_domestic_cost price quantity shipping false = refused wrong_currency
calculate_domestic_cost price none shipping true = refused invalid_quantity
calculate_domestic_cost price (some quantity) shipping true =
    if quantity == 0 then refused invalid_quantity else with_price (money price) quantity shipping

-- `n` is the number of cents nearest to the amount, half a cent rounded up.
abbrev pub IsNearest : ℕ → ℕ → ℕ → Type 0
IsNearest digits places n =
    (2 * 10 ^ places * n ≤ digits * 200 + 10 ^ places)
    × (digits * 200 + 10 ^ places < 2 * 10 ^ places * (n + 1))

-- What an amount is read as: an error for one that is negative, not finite or no number.
abbrev pub Reads : Amount → Money → Type 0
Reads (decimal digits places) (cents n) = IsNearest digits places n
Reads (decimal digits places) (bad e) = ⊥
Reads negative m = m ≡ bad invalid_amount
Reads not_finite m = m ≡ bad invalid_amount
Reads unreadable m = m ≡ bad invalid_number

-- The fee is asked for only behind a good price.
abbrev pub FeeCosts : ℕ → Option Amount → CostResult → Type 0
FeeCosts merchandise none result = result ≡ insufficient_data merchandise
FeeCosts merchandise (some amount) result =
    ((fee : ℕ) × Reads amount (cents fee) × (result ≡ ok merchandise fee (merchandise + fee)))
    ⊎ ((e : CostError) × Reads amount (bad e) × (result ≡ refused e))

-- What a positive quantity costs, which the price is read for first.
abbrev pub Costs : Amount → ℕ → Option Amount → CostResult → Type 0
Costs price quantity shipping result =
    ((n : ℕ) × Reads price (cents n) × FeeCosts (n * quantity) shipping result)
    ⊎ ((e : CostError) × Reads price (bad e) × (result ≡ refused e))

-- The result for every input: the currency is looked at first, the quantity next.
abbrev pub Answers : Amount → Option ℕ → Option Amount → Bool → CostResult → Type 0
Answers price quantity shipping false result = result ≡ refused wrong_currency
Answers price none shipping true result = result ≡ refused invalid_quantity
Answers price (some zero) shipping true result = result ≡ refused invalid_quantity
Answers price (some (suc n)) shipping true result = Costs price (suc n) shipping result

quotient_bounds : (a b : ℕ) → 0 < b → (b * (a / b) ≤ a) × (a < b * (a / b + 1))
quotient_bounds a b h = (omega arith, omega arith)

power_positive : (k : ℕ) → 0 < 2 * 10 ^ k
power_positive zero = omega arith
power_positive (suc k) = let h = power_positive k in simp unary_clauses (omega (arith, h))

money-Reads : (a : Amount) → Reads a (money a)
unfolding money to_cents
money-Reads (decimal digits places) =
    quotient_bounds (digits * 200 + 10 ^ places) (2 * 10 ^ places) (power_positive places)
money-Reads negative = refl
money-Reads not_finite = refl
money-Reads unreadable = refl

shipping-FeeCosts :
    (merchandise : ℕ) (amount : Amount) (m : Money)
    → Reads amount m
    → FeeCosts merchandise (some amount) (add_shipping merchandise m)
shipping-FeeCosts merchandise amount (cents fee) h = inl (fee, h, refl)
shipping-FeeCosts merchandise amount (bad e) h = inr (e, h, refl)

with_shipping-FeeCosts :
    (merchandise : ℕ) (shipping : Option Amount)
    → FeeCosts merchandise shipping (with_shipping merchandise shipping)
with_shipping-FeeCosts merchandise none = refl
with_shipping-FeeCosts merchandise (some amount) =
    shipping-FeeCosts merchandise amount (money amount) (money-Reads amount)

with_price-Costs :
    (price : Amount) (m : Money) (quantity : ℕ) (shipping : Option Amount)
    → Reads price m
    → Costs price quantity shipping (with_price m quantity shipping)
with_price-Costs price (cents n) quantity shipping h =
    inl (n, h, with_shipping-FeeCosts (n * quantity) shipping)
with_price-Costs price (bad e) quantity shipping h = inr (e, h, refl)

-- The result of a cost, for every input. Another currency is refused first, then a quantity that is
-- no positive whole number, then a price that is no number, and one that is negative or not finite.
-- Otherwise the merchandise costs the price in cents times the quantity; without a fee that is all,
-- a fee that is no number, negative or not finite is refused, and with a good one the total is the
-- sum. Cents are the nearest ones to the amount, and half a cent is rounded up.
pub cost-Answers :
    (price : Amount) (quantity : Option ℕ) (shipping : Option Amount) (is_cny : Bool)
    → Answers price quantity shipping is_cny
        (calculate_domestic_cost price quantity shipping is_cny)
unfolding calculate_domestic_cost
cost-Answers price quantity shipping false = refl
cost-Answers price none shipping true = refl
cost-Answers price (some zero) shipping true = refl
cost-Answers price (some (suc n)) shipping true =
    let positive : (suc n == 0) ≡ false = ground arith in
    rw positive (with_price-Costs price (money price) (suc n) shipping (money-Reads price))

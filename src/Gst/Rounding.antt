-- ===== src/Gst/Rounding.antt =====
-- How far a rounded tax is from the exact one.
use backend_pluseops.Base.{ℕ, ◌+◌, ◌-◌, ◌*◌, ◌≤◌, ◌<◌, ◌≡◌, ap, arith}
use backend_pluseops.Gst.{round_div, gst_cents, included_gst_cents}

-- The quotient is within half of the exact ratio, and an exact half goes up.
pub round_div_bounds :
    (a b : ℕ) → 0 < b → (2 * b * round_div a b ≤ 2 * a + b) × (2 * a < 2 * b * round_div a b + b)
unfolding round_div
round_div_bounds a b h = (omega arith, omega arith)

-- The tax added to a taxable amount is the exact tax to within half a paisa.
pub gst_cents_exact :
    (taxable rate : ℕ)
    → (20000 * gst_cents taxable rate ≤ 2 * (taxable * rate) + 10000)
      × (2 * (taxable * rate) < 20000 * gst_cents taxable rate + 10000)
unfolding gst_cents
gst_cents_exact taxable rate = (grind arith, grind arith)

-- The tax inside a gross amount is gross × r / (100 % + r) to within half a paisa.
pub included_gst_cents_exact :
    (gross rate : ℕ)
    → (2 * (10000 + rate) * included_gst_cents gross rate ≤ 2 * (gross * rate) + (10000 + rate))
      × (2 * (gross * rate) < 2 * (10000 + rate) * included_gst_cents gross rate + (10000 + rate))
unfolding included_gst_cents
included_gst_cents_exact gross rate = (grind arith, grind arith)

-- A factor is cancelled, with a rest of less than two factors.
le_of_mul : (d a b : ℕ) → 0 < d → 2 * d * a < 2 * d * b + 2 * d → a ≤ b
le_of_mul d a b p h = grind arith

-- The tax inside a price is never more than the price.
pub included_gst_cents-le : (gross rate : ℕ) → included_gst_cents gross rate ≤ gross
included_gst_cents-le gross rate =
    le_of_mul (10000 + rate) (included_gst_cents gross rate) gross (omega arith)
      (omega (arith, included_gst_cents_exact gross rate))

agree :
    (gross taxable t s rate : ℕ)
    → taxable + t ≡ gross
    → rate ≤ 10000
    → 2 * (10000 + rate) * t ≤ 2 * (gross * rate) + (10000 + rate)
    → 2 * (gross * rate) < 2 * (10000 + rate) * t + (10000 + rate)
    → 20000 * s ≤ 2 * (taxable * rate) + 10000
    → 2 * (taxable * rate) < 20000 * s + 10000
    → (s ≤ t + 1) × (t ≤ s + 1)
agree gross taxable t s rate e h a b c d =
    let m = ap (λ (x : ℕ). x * rate) e in (omega arith, omega arith)

-- Taking GST out of an inclusive price and adding it back on the taxable value that is left agree
-- to one paisa, for any rate up to 100 %.
pub inclusive_agrees :
    (gross rate : ℕ)
    → rate ≤ 10000
    → let t = included_gst_cents gross rate in
      (gst_cents (gross - t) rate ≤ t + 1) × (t ≤ gst_cents (gross - t) rate + 1)
inclusive_agrees gross rate h =
    let t = included_gst_cents gross rate in
    let (a, b) = included_gst_cents_exact gross rate in
    let (c, d) = gst_cents_exact (gross - t) rate in
    agree gross (gross - t) t (gst_cents (gross - t) rate) rate
      (omega (arith, included_gst_cents-le gross rate)) h a b c d

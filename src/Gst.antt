-- ===== src/Gst.antt =====
-- src/modules/orders/gst.js: GST on one line of an order, in paise.
-- A rate is its number of hundredths of a percent, what `Math.round(ratePercent * 100)` gives for
-- the two decimals that a rate may have; so 18 % is 1800.
pub mod Rounding
pub mod Splitting
use backend_pluseops.Base.{
  ℕ, ◌+◌, ◌-◌, ◌*◌, ◌/◌, Bool, true, false, ◌||◌, Option, none, some, leb, ◌==◌, if◌then◌else◌,
}

pub data Taxability : Type 0 where
  taxable nil_rated exempt non_gst : Taxability

-- The columns of a product that decide its rate.
pub record Product : Type 0 where
  pub gst_taxability : Option Taxability
  pub gst_rate : Option ℕ

-- `Math.round(a / b)` for a, b not negative: half-up
unfoldable pub round_div : ℕ → ℕ → ℕ
round_div a b = (2 * a + b) / (2 * b)

unfoldable pub gst_cents : ℕ → ℕ → ℕ
unfolding round_div
gst_cents taxable_cents rate =
    if leb taxable_cents 0 || leb rate 0 then 0 else round_div (taxable_cents * rate) 10000

unfoldable pub included_gst_cents : ℕ → ℕ → ℕ
unfolding round_div
included_gst_cents gross_cents rate =
    if leb gross_cents 0 || leb rate 0 then 0 else round_div (gross_cents * rate) (10000 + rate)

own_rate : Option ℕ → ℕ → ℕ
own_rate none default_rate = default_rate
own_rate (some own) default_rate = own

-- `product.gstTaxability && product.gstTaxability !== 'TAXABLE'`
carries_no_gst : Option Taxability → Bool
carries_no_gst none = false
carries_no_gst (some Taxability.taxable) = false
carries_no_gst (some _) = true

unfoldable pub line_rate : Product → ℕ → ℕ
unfolding own_rate carries_no_gst
line_rate product default_rate =
    if carries_no_gst product.gst_taxability then 0 else own_rate product.gst_rate default_rate

-- The result of `lineTax`.
pub record LineTax : Type 0 where
  pub taxable_cents : ℕ
  pub tax_cents : ℕ

unfoldable pub line_tax : ℕ → ℕ → Bool → Option ℕ → LineTax
line_tax gross_cents rate inclusive (some explicit) = record {
  taxable_cents = gross_cents;
  tax_cents = explicit;
}
line_tax gross_cents rate true none =
    let tax = included_gst_cents gross_cents rate in
    record { taxable_cents = gross_cents - tax; tax_cents = tax }
line_tax gross_cents rate false none = record {
  taxable_cents = gross_cents;
  tax_cents = gst_cents gross_cents rate;
}

-- The result of `splitTax`.
pub record TaxSplit : Type 0 where
  pub cgst : ℕ
  pub sgst : ℕ
  pub igst : ℕ

unfoldable pub split_tax : ℕ → Bool → TaxSplit
split_tax tax_cents false = record { cgst = 0; sgst = 0; igst = tax_cents }
split_tax tax_cents true = record {
  cgst = tax_cents / 2;
  sgst = tax_cents - tax_cents / 2;
  igst = 0;
}

-- A state code, the first two digits of a GSTIN, as its number.
abbrev pub StateCode : Type 0
StateCode = ℕ

-- `!sellerState || !supplyState || sellerState === supplyState`
unfoldable pub is_intra_state : Option StateCode → Option StateCode → Bool
is_intra_state none supply = true
is_intra_state (some seller) none = true
is_intra_state (some seller) (some supply) = seller == supply

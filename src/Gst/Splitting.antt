-- ===== src/Gst/Splitting.antt =====
-- What a line's tax and its split add up to.
use backend_pluseops.Base.{ℕ, ◌+◌, ◌≤◌, ◌≡◌, ◌⊎◌, Bool, true, none, arith}
use backend_pluseops.Gst.{line_tax, split_tax, TaxSplit}
use backend_pluseops.Gst.Rounding.{included_gst_cents-le}

abbrev split_sum : TaxSplit → ℕ
split_sum s = s.cgst + s.sgst + s.igst

-- No paisa is lost: the three parts add up to the tax, within a state the halves differ by one
-- paisa at most, and CGST and SGST are never charged beside IGST.
pub split_tax_whole :
    (tax : ℕ) (intra : Bool)
    → let s = split_tax tax intra in
      (s.cgst + s.sgst + s.igst ≡ tax)
      × (s.cgst ≤ s.sgst)
      × (s.sgst ≤ s.cgst + 1)
      × ((s.igst ≡ 0) ⊎ (s.cgst + s.sgst ≡ 0))
unfolding split_tax
split_tax_whole tax intra = ground arith

-- With tax-inclusive prices and no explicit tax, the customer pays the gross amount to the paisa.
pub line_tax-inclusive :
    (gross rate : ℕ)
    → (line_tax gross rate true none).taxable_cents + (line_tax gross rate true none).tax_cents
      ≡ gross
unfolding line_tax
line_tax-inclusive gross rate = omega (arith, included_gst_cents-le gross rate)

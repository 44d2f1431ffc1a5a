-- ===== src/Orders/Pricing.antt =====
-- The money of an order: the pricing loop of `create` in src/modules/orders/orders.service.js.
-- The line's input has the amounts of the request in paise; they may be negative here, since the
-- loop checks that itself.
pub mod Sums
use backend_pluseops.Base.{
  ℕ, ◌+◌, ◌-◌, ◌*◌, Bool, Option, none, some, List, [], ◌∷◌, Error, Result, ok, err,
  invalid_quantity, invalid_money, invalid_line_total, ltb, ◌==◌, if◌then◌else◌,
}
use backend_pluseops.Base.Checks.{◌>>=◌, ◌>>◌, require, fail_if}
use backend_pluseops.Base.Int.{ℤ, pos, negsuc}
use backend_pluseops.Gst.{LineTax, TaxSplit, line_rate, line_tax, split_tax}
use backend_pluseops.Catalog.{Variant}
use backend_pluseops.Db.{Line}

-- A normalized item of the request.
pub record Item : Type 0 where
  pub variant : ℕ
  pub warehouse : ℕ
  pub quantity : ℤ
  pub discount : ℤ
  pub tax : Option ℤ

-- What the workspace settings and the two states decide for every line.
pub record Terms : Type 0 where
  pub charges_gst : Bool
  pub default_rate : ℕ
  pub inclusive : Bool
  pub intra_state : Bool

abbrev positive : ℤ → Option ℕ
positive (pos n) = if n == 0 then none else some n
positive (negsuc n) = none

abbrev not_negative : ℤ → Option ℕ
not_negative (pos n) = some n
not_negative (negsuc n) = none

-- `explicitTaxCents`, which may be absent
explicit_tax : Option ℤ → Result (Option ℕ)
explicit_tax none = ok none
explicit_tax (some t) = do n ← require (not_negative t) invalid_money; ok (some n)

-- The figures of one line, once its checks have passed.
unfoldable pub figure_line : Terms → Item → Variant → ℕ → ℕ → Option ℕ → Line
figure_line terms item v qty discount explicit =
    let gross = v.price_cents * qty - discount in
    let rate = if terms.charges_gst then line_rate v.product terms.default_rate else 0 in
    let t = line_tax gross rate terms.inclusive explicit in
    record {
      variant = item.variant;
      warehouse = item.warehouse;
      quantity = qty;
      unit_price = v.price_cents;
      discount = discount;
      rate = rate;
      taxable = t.taxable_cents;
      tax = t.tax_cents;
      line_total = t.taxable_cents + t.tax_cents;
      split = split_tax t.tax_cents terms.intra_state;
    }

unfoldable pub price_line : Terms → Item → Variant → Result Line
unfolding explicit_tax
price_line terms item v = do
  qty ← require (positive item.quantity) invalid_quantity
  discount ← require (not_negative item.discount) invalid_money
  explicit ← explicit_tax item.tax
  fail_if (ltb (v.price_cents * qty) discount) invalid_line_total
  ok (figure_line terms item v qty discount explicit)

-- The running totals.
pub record Totals : Type 0 where
  pub subtotal : ℕ
  pub discount_total : ℕ
  pub tax_total : ℕ
  pub gst : TaxSplit

abbrev pub no_totals : Totals
no_totals = record {
  subtotal = 0;
  discount_total = 0;
  tax_total = 0;
  gst = record { cgst = 0; sgst = 0; igst = 0 };
}

unfoldable pub add_line : Totals → Line → Totals
add_line t l = record {
  subtotal = t.subtotal + (l.taxable + l.discount);
  discount_total = t.discount_total + l.discount;
  tax_total = t.tax_total + l.tax;
  gst = record {
    cgst = t.gst.cgst + l.split.cgst;
    sgst = t.gst.sgst + l.split.sgst;
    igst = t.gst.igst + l.split.igst;
  };
}

-- The loop over the items, each with its variant.
unfoldable pub price_items : Terms → Totals → List (Item × Variant) → Result (Totals × List Line)
unfolding price_line add_line
price_items terms t [] = ok (t, [])
price_items terms t ((item, v) ∷ items) = do
  l ← price_line terms item v
  r ← price_items terms (add_line t l) items
  ok (r.0, l ∷ r.1)

-- `totalCents`
unfoldable pub order_total : Totals → ℕ → ℕ
order_total t shipping = t.subtotal - t.discount_total + t.tax_total + shipping

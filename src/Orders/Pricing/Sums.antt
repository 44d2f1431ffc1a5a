-- ===== src/Orders/Pricing/Sums.antt =====
-- What the figures of an order add up to.
use backend_pluseops.Base.{
  ℕ, ◌+◌, ◌-◌, ◌*◌, ◌≤◌, ◌≡◌, true, false, none, List, [], ◌∷◌, ok, arith, Bool-cases, is_ok,
  get_or, if◌then◌else◌, ◌↔◌, inl, inr,
}
use backend_pluseops.Base.Lists.{sum_of}
use backend_pluseops.Base.Checks.{>>=-eq-ok}
use backend_pluseops.Base.Int.{pos, ◌≤ℤ◌, pos_part}
use backend_pluseops.Gst.{line_tax, gst_cents, included_gst_cents}
use backend_pluseops.Gst.Splitting.{split_tax_whole}
use backend_pluseops.Gst.Rounding.{included_gst_cents-le}
use backend_pluseops.Catalog.{Variant}
use backend_pluseops.Db.{Line}
use backend_pluseops.Orders.Pricing.{
  Item, Terms, Totals, no_totals, figure_line, price_line, add_line, price_items, order_total,
}

-- A line is well figured: its total is the taxable value and the tax, and the split adds up to
-- the tax.
pub record IsFigured (l : Line) : Type 0 where
  pub total : l.line_total ≡ l.taxable + l.tax
  pub whole : l.split.cgst + l.split.sgst + l.split.igst ≡ l.tax

price_line-IsFigured :
    (terms : Terms) (item : Item) (v : Variant) (l : Line)
    → price_line terms item v ≡ ok l
    → IsFigured l
unfolding price_line figure_line
price_line-IsFigured terms item v l h = record {
  total = ground arith;
  whole = ground (arith, split_tax_whole l.tax terms.intra_state);
}

-- The totals are those before, with the sums over the lines added.
record AddsUp (t t' : Totals) (lines : List Line) : Type 0 where
  subtotal :
      t'.subtotal
      ≡ t.subtotal
        + sum_of (λ (l : Line). l.taxable) lines
        + sum_of (λ (l : Line). l.discount) lines
  discount : t'.discount_total ≡ t.discount_total + sum_of (λ (l : Line). l.discount) lines
  tax : t'.tax_total ≡ t.tax_total + sum_of (λ (l : Line). l.tax) lines
  gst :
      t'.gst.cgst + t'.gst.sgst + t'.gst.igst + t.tax_total
      ≡ t.gst.cgst + t.gst.sgst + t.gst.igst + t'.tax_total
  paid :
      sum_of (λ (l : Line). l.line_total) lines
      ≡ sum_of (λ (l : Line). l.taxable) lines + sum_of (λ (l : Line). l.tax) lines

add_line-AddsUp :
    (t t' : Totals) (l : Line) (lines : List Line)
    → IsFigured l
    → AddsUp (add_line t l) t' lines
    → AddsUp t t' (l ∷ lines)
unfolding add_line
add_line-AddsUp t t' l lines f h = record {
  subtotal = omega (arith, h.subtotal);
  discount = omega (arith, h.discount);
  tax = omega (arith, h.tax);
  gst = omega (arith, h.gst, f.whole);
  paid = omega (arith, h.paid, f.total);
}

price_items-AddsUp :
    (terms : Terms) (t : Totals) (items : List (Item × Variant)) (t' : Totals) (lines : List Line)
    → price_items terms t items ≡ ok (t', lines)
    → AddsUp t t' lines
unfolding price_items
price_items-AddsUp terms t [] t' lines h = record {
  subtotal = ground arith;
  discount = ground arith;
  tax = ground arith;
  gst = ground arith;
  paid = ground arith;
}
price_items-AddsUp terms t ((item, v) ∷ items) t' lines h =
    let (l, priced, rest) = >>=-eq-ok (price_line terms item v) _ (t', lines) h in
    let (r, more, last) = >>=-eq-ok (price_items terms (add_line t l) items) _ (t', lines) rest in
    let ih = price_items-AddsUp terms (add_line t l) items r.0 r.1 more in
    let step = add_line-AddsUp t r.0 l r.1 (price_line-IsFigured terms item v l priced) ih in
    let totals : r.0 ≡ t' = cc last in
    let all_lines : l ∷ r.1 ≡ lines = cc last in rw (← totals, ← all_lines) step

-- The invoice adds up to the paisa: whatever was rounded on the way, the total of an order is the
-- sum of its lines' totals and the shipping, the subtotal is the lines' taxable values and
-- discounts, and CGST, SGST and IGST together are the tax.
pub order_total_adds_up :
    (terms : Terms) (items : List (Item × Variant)) (shipping : ℕ) (t : Totals) (lines : List Line)
    → price_items terms no_totals items ≡ ok (t, lines)
    → (order_total t shipping ≡ sum_of (λ (l : Line). l.line_total) lines + shipping)
      × (t.subtotal
          ≡ sum_of (λ (l : Line). l.taxable) lines + sum_of (λ (l : Line). l.discount) lines)
      × (t.discount_total ≡ sum_of (λ (l : Line). l.discount) lines)
      × (t.gst.cgst + t.gst.sgst + t.gst.igst ≡ t.tax_total)
unfolding order_total
order_total_adds_up terms items shipping t lines h =
    let a = price_items-AddsUp terms no_totals items t lines h in
    (
      omega (arith, a.subtotal, a.discount, a.tax, a.paid),
      omega (arith, a.subtotal),
      omega (arith, a.discount),
      omega (arith, a.gst),
    )

-- Where no tax is given for a line, the customer pays price × quantity − discount for it if prices
-- include tax, and that much before tax if they do not.
pub price_line-pays :
    (terms : Terms) (item : Item) (v : Variant) (l : Line)
    → item.tax ≡ none
    → price_line terms item v ≡ ok l
    → (if terms.inclusive then l.line_total else l.taxable) + l.discount
      ≡ v.price_cents * l.quantity
unfolding price_line figure_line line_tax
price_line-pays terms item v l no_tax h = elim (Bool-cases terms.inclusive) [
  | inl inclusive ↦
      ground (arith, included_gst_cents-le (v.price_cents * l.quantity - l.discount) l.rate)
  | inr exclusive ↦ ground arith
]

-- A composition dealer or an unregistered shop charges no GST: every line without a tax of its own
-- is free of tax.
pub price_line-untaxed :
    (terms : Terms) (item : Item) (v : Variant) (l : Line)
    → terms.charges_gst ≡ false
    → item.tax ≡ none
    → price_line terms item v ≡ ok l
    → (l.tax ≡ 0) × (l.rate ≡ 0) × (l.line_total + l.discount ≡ v.price_cents * l.quantity)
unfolding price_line figure_line line_tax gst_cents included_gst_cents
price_line-untaxed terms item v l exempt no_tax h = (ground arith, ground arith, ground arith)

-- A line is accepted exactly when its quantity is positive, no amount is negative and the discount
-- is not more than price × quantity.
pub price_line-accepts :
    (terms : Terms) (item : Item) (v : Variant)
    → (is_ok (price_line terms item v) ≡ true) ↔ (
        (pos 1 ≤ℤ item.quantity)
        × (pos 0 ≤ℤ item.discount)
        × (pos 0 ≤ℤ get_or item.tax (pos 0))
        × (pos_part item.discount ≤ v.price_cents * pos_part item.quantity))
unfolding price_line
price_line-accepts terms item v =
    (λ h. (ground arith, ground arith, ground arith, ground arith), λ h. ground arith)

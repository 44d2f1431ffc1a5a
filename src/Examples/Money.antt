-- ===== src/Examples/Money.antt =====
-- The figures of orders at concrete inputs.
use backend_pluseops.Base.{
  ℕ, ◌≡◌, ◌≢◌, ◌++◌, ◌≤◌, ◌<◌, ◌+◌, ◌*◌, refl, true, false, none, some, [], ◌∷◌, ok, arith, inl,
  inr, serialization_failure, suc, zero, pure, Tx,
}
use backend_pluseops.Base.Lists.{sum_of}
use backend_pluseops.Gst.{gst_cents, split_tax, line_tax, line_rate, round_div}
use backend_pluseops.Gst.Rounding.{gst_cents_exact}
use backend_pluseops.Gstin.{gstin_check_char, check_sum}
use backend_pluseops.Gstin.Checking.{gstin_check_char_detects}
use backend_pluseops.Retry.{execute, Faults}
use backend_pluseops.Retry.Laws.{execute_tolerates}
use backend_pluseops.Db.{Line, pending, confirmed}
use backend_pluseops.Orders.Status.{is_valid_transition, transitions}
use backend_pluseops.Orders.Pricing.{
  Terms, Totals, no_totals, price_line, figure_line, add_line, price_items, order_total,
}
use backend_pluseops.Orders.Pricing.Sums.{order_total_adds_up}
use backend_pluseops.Examples.{shirt, item, line}

gst_99 : gst_cents 9999 1800 ≡ 1800
unfolding gst_cents
gst_99 = refl

odd_split : (split_tax 1801 true).sgst ≡ 901
unfolding split_tax
odd_split = refl

gst_cents_exact_example :
    (20000 * gst_cents 9999 1800 ≤ 2 * (9999 * 1800) + 10000)
    × (2 * (9999 * 1800) < 20000 * gst_cents 9999 1800 + 10000)
gst_cents_exact_example = gst_cents_exact 9999 1800

-- The first attempt fails to serialize.
abbrev once_aborted : Faults
once_aborted zero = some serialization_failure
once_aborted (suc n) = none

abbrev three : Tx ℕ ℕ
three = pure 3

execute_tolerates_example : execute once_aborted three 5 ≡ ok (3, 5)
execute_tolerates_example = execute_tolerates once_aborted three 5 (inr refl) (inl refl) refl

confirms : is_valid_transition (some pending) confirmed ≡ true
unfolding is_valid_transition transitions
confirms = refl

abbrev terms : Terms
terms = record { charges_gst = true; default_rate = 1800; inclusive = false; intra_state = true }

abbrev untaxed_line : Line
untaxed_line = record line {
  rate = 0;
  tax = 0;
  line_total = 20000;
  split = record { cgst = 0; sgst = 0; igst = 0 };
}

abbrev totals : Totals
totals = record {
  subtotal = 20000;
  discount_total = 0;
  tax_total = 3600;
  gst = record { cgst = 1800; sgst = 1800; igst = 0 };
}

priced : price_line terms item shirt ≡ ok line
unfolding price_line figure_line line_tax line_rate gst_cents split_tax round_div
priced = refl

priced_all : price_items terms no_totals ((item, shirt) ∷ []) ≡ ok (totals, line ∷ [])
unfolding price_items add_line price_line figure_line line_tax line_rate gst_cents split_tax
    round_div
priced_all = refl

untaxed : price_line (record terms { charges_gst = false }) item shirt ≡ ok untaxed_line
unfolding price_line figure_line line_tax line_rate gst_cents split_tax round_div
untaxed = refl

order_total_adds_up_example :
    (order_total totals 5000 ≡ sum_of (λ (l : Line). l.line_total) (line ∷ []) + 5000)
    × (totals.subtotal
        ≡ sum_of (λ (l : Line). l.taxable) (line ∷ [])
          + sum_of (λ (l : Line). l.discount) (line ∷ []))
    × (totals.discount_total ≡ sum_of (λ (l : Line). l.discount) (line ∷ []))
    × (totals.gst.cgst + totals.gst.sgst + totals.gst.igst ≡ totals.tax_total)
order_total_adds_up_example =
    order_total_adds_up terms ((item, shirt) ∷ []) 5000 totals (line ∷ []) priced_all

-- The check character of 29AAGCB7383J1Z4.
known_gstin :
    gstin_check_char (2 ∷ 9 ∷ 10 ∷ 10 ∷ 16 ∷ 12 ∷ 11 ∷ 7 ∷ 3 ∷ 8 ∷ 3 ∷ 19 ∷ 1 ∷ 35 ∷ []) ≡ 4
unfolding gstin_check_char check_sum
known_gstin = refl

gstin_check_char_detects_example :
    gstin_check_char ((2 ∷ 9 ∷ []) ++ 10 ∷ 10 ∷ [])
    ≢ gstin_check_char ((2 ∷ 9 ∷ []) ++ 11 ∷ 10 ∷ [])
gstin_check_char_detects_example =
    gstin_check_char_detects (2 ∷ 9 ∷ []) (10 ∷ []) 10 11 (omega arith) (omega arith)
      (λ e. omega (arith, e))

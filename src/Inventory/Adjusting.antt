-- ===== src/Inventory/Adjusting.antt =====
-- What `adjust` of src/modules/inventory/inventory.service.js does to the stock.
use backend_pluseops.Base.{
  Ensures-follow, follow, Ensures-ok, refl, ◌↔◌, Ensures, ap, ℕ, ◌+◌, ◌<◌, ◌≡◌, ◌≢◌, none, ok, err,
  arith, insufficient_stock,
}
use backend_pluseops.Base.Tables.{quantity}
use backend_pluseops.Base.Int.{ℤ, pos, negsuc, ◌+ℤ◌, +ℤ_parts, pos_part, neg_part}
use backend_pluseops.Catalog.{Catalog}
use backend_pluseops.Stock.{Key, key_iff, key_instance, Stock, write_both, record_movement}
use backend_pluseops.Stock.Ledger.{IsAccounted, post-IsAccounted, quantity-upsert}
use backend_pluseops.Retry.{Faults, execute}
use backend_pluseops.Retry.Laws.{execute-Ensures}
use backend_pluseops.Inventory.{
  post_adjustment, adjust_target, AdjustRequest, Adjusted, adjust_tx, adjust,
}

-- What a correction of the stock of `k` by `change` has done.
pub record Corrects (k : Key) (change : ℤ) (s s' : Stock) : Type 0 where
  pub moved : pos (quantity k s'.inventory) ≡ pos (quantity k s.inventory) +ℤ change
  pub others : (j : Key) → j ≢ k → quantity j s'.inventory ≡ quantity j s.inventory

-- The same, with the quantities that the caller is told.
abbrev pub Reports : Key → ℤ → Stock → Adjusted → Stock → Type 0
Reports k change s r s' =
    Corrects k change s s'
    × (r.quantity_before ≡ quantity k s.inventory)
    × (r.quantity_after ≡ quantity k s'.inventory)

module _ (k : Key) (user : ℕ) (body : AdjustRequest) (s : Stock) where
  post_adjustment-Reports :
      (before : ℕ) (after : ℤ)
      → before ≡ quantity k s.inventory
      → after ≡ pos before +ℤ body.quantity_changed
      → Ensures (Reports k body.quantity_changed s) (post_adjustment k user body before after s)
  unfolding post_adjustment write_both record_movement
  post_adjustment-Reports before (negsuc n) b e = tt
  post_adjustment-Reports before (pos n) b e = (
    record {
      moved = ground (arith, key_iff k k, quantity-upsert k k n s.inventory);
      others = λ j ne. ground (arith, key_iff k j, quantity-upsert k j n s.inventory);
    },
    b,
    ground (arith, key_iff k k, quantity-upsert k k n s.inventory),
  )

  post_adjustment-IsAccounted :
      {opening : Key → ℕ} (before : ℕ) (after : ℤ)
      → IsAccounted opening s
      → before ≡ quantity k s.inventory
      → after ≡ pos before +ℤ body.quantity_changed
      → Ensures (λ r. IsAccounted opening) (post_adjustment k user body before after s)
  unfolding post_adjustment
  post_adjustment-IsAccounted before (negsuc n) v b e = tt
  post_adjustment-IsAccounted before (pos n) v b e =
      post-IsAccounted _ v (
        omega (arith, e, +ℤ_parts (pos before) body.quantity_changed, ap pos_part e, ap neg_part e))

-- The checks change nothing.
adjust_target-state :
    (catalog : Catalog) (tenant : ℕ) (body : AdjustRequest) (s : Stock) (k : Key) (t : Stock)
    → adjust_target catalog tenant body s ≡ ok (k, t)
    → t ≡ s
unfolding adjust_target
adjust_target-state catalog tenant body s k t h = ground arith

-- A correction keeps the books: the movements account for the stock, and the mirror agrees.
pub adjust-IsAccounted :
    (opening : Key → ℕ) (catalog : Catalog) (faults : Faults) (tenant user : ℕ)
    (body : AdjustRequest) (s : Stock)
    → IsAccounted opening s
    → Ensures (λ r. IsAccounted opening) (adjust catalog faults tenant user body s)
unfolding adjust adjust_tx
adjust-IsAccounted opening catalog faults tenant user body s v =
    Ensures-follow _ (adjust_target catalog tenant body s) _ λ k t e.
      Ensures-follow _ (execute faults (adjust_tx k user body) t) _ λ r u f.
        Ensures-ok _ _ r u
          (execute-Ensures faults (adjust_tx k user body) t (λ _. IsAccounted opening)
            (rw (adjust_target-state catalog tenant body s k t e)
              (post_adjustment-IsAccounted k user body s (quantity k s.inventory) _ v refl refl)))
          f

-- A correction that succeeds moves the row that it names by exactly the change asked for, reports
-- the quantities before and after, and touches no other row of any tenant.
pub adjust-Reports :
    (catalog : Catalog) (faults : Faults) (tenant user : ℕ) (body : AdjustRequest) (s : Stock)
    {k : Key}
    → adjust_target catalog tenant body s ≡ ok (k, s)
    → Ensures
        (λ r. Reports k body.quantity_changed s r.0)
        (adjust catalog faults tenant user body s)
unfolding adjust adjust_tx
adjust-Reports catalog faults tenant user body s {k} target =
    rw (target, follow)
      (Ensures-follow _ (execute faults (adjust_tx k user body) s) _ λ r u f.
        Ensures-ok _ _ r u
          (execute-Ensures faults (adjust_tx k user body) s (Reports k body.quantity_changed s)
            (post_adjustment-Reports k user body s (quantity k s.inventory) _ refl refl))
          f)

-- Where the database lets the transaction run, a correction is refused for want of stock exactly
-- when it would take the row below zero.
pub adjust_refuses :
    (catalog : Catalog) (tenant user : ℕ) (body : AdjustRequest) (s : Stock) {k : Key}
    → adjust_target catalog tenant body s ≡ ok (k, s)
    → (adjust catalog (λ _. none) tenant user body s ≡ err insufficient_stock)
      ↔ (quantity k s.inventory + pos_part body.quantity_changed < neg_part body.quantity_changed)
unfolding adjust execute adjust_tx post_adjustment
adjust_refuses catalog tenant user body s {k} target = (
  λ h. ground (arith, +ℤ_parts (pos (quantity k s.inventory)) body.quantity_changed),
  λ h. ground (arith, +ℤ_parts (pos (quantity k s.inventory)) body.quantity_changed),
)

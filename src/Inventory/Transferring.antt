-- ===== src/Inventory/Transferring.antt =====
-- What `transfer` of src/modules/inventory/inventory.service.js does to the stock.
use backend_pluseops.Base.{
  ℕ, ◌+◌, ◌-◌, ◌<◌, ◌≤◌, ◌≡◌, ◌≢◌, Bool, none, err, ok, arith, Bool-cases, Option-cases, inl, inr,
  Ensures, Ensures-ok, Ensures-mono, ◌↔◌, insufficient_stock, Ensures-follow, ◌==◌, ◌&&◌, ap,
}
use backend_pluseops.Base.Tables.{quantity, lookup, total, total-upsert}
use backend_pluseops.Base.Int.{pos, ◌-ℤ◌, -ℤ_parts}
use backend_pluseops.Catalog.{Catalog}
use backend_pluseops.Stock.{
  Key, key_iff, key_instance, Stock, write_both, write_inventory, record_movement,
}
use backend_pluseops.Stock.Ledger.{IsAccounted, post-IsAccounted, quantity-upsert}
use backend_pluseops.Retry.{Faults, execute}
use backend_pluseops.Retry.Laws.{execute-Ensures}
use backend_pluseops.Inventory.{
  TransferRequest, TransferPlan, Transferred, transfer_movement, transfer_tx, transfer_plan,
  transfer,
}

-- What a transfer of `n` pieces has done, and what the caller is told of it.
abbrev pub Moves : Key → Key → ℕ → Stock → Transferred → Stock → Type 0
Moves source dest n s r s' =
    (quantity source s'.inventory + n ≡ quantity source s.inventory)
    × (quantity dest s'.inventory ≡ quantity dest s.inventory + n)
    × ((j : Key) → j ≢ source → j ≢ dest → quantity j s'.inventory ≡ quantity j s.inventory)
    × (r.source_before ≡ quantity source s.inventory)
    × (r.source_after ≡ quantity source s'.inventory)
    × (r.dest_before ≡ quantity dest s.inventory)
    × (r.dest_after ≡ quantity dest s'.inventory)

module _ (source dest : Key) (n user fresh : ℕ) (body : TransferRequest) (s : Stock) where
  abbrev source_after : ℕ
  source_after = quantity source s.inventory - n

  abbrev dest_after : ℕ
  dest_after = quantity dest s.inventory + n

  abbrev half_posted : Stock
  half_posted =
      transfer_movement body user fresh source (quantity source s.inventory) (pos 0 -ℤ pos n)
        source_after (write_both source source_after s)

  abbrev posted : Stock
  posted =
      transfer_movement body user fresh dest (quantity dest s.inventory) (pos n) dest_after
        (write_both dest dest_after half_posted)

  -- The two halves as posted, with the quantities that the caller is told.
  abbrev Posts : Transferred → Stock → Type 0
  Posts r s' =
      (s' ≡ posted)
      × (n ≤ quantity source s.inventory)
      × (r.source_before ≡ quantity source s.inventory)
      × (r.dest_before ≡ quantity dest s.inventory)
      × (r.source_after ≡ source_after)
      × (r.dest_after ≡ dest_after)

  transfer_tx-Posts : 0 < n → Ensures Posts (transfer_tx source dest n user fresh body s)
  unfolding transfer_tx write_both write_inventory record_movement
  transfer_tx-Posts p = elim (Option-cases (lookup source s.inventory)) [
    | inl gone ↦ ground arith
    | inr (q, found) ↦ ground arith
  ]

  module _ (apart : source ≢ dest) (enough : n ≤ quantity source s.inventory) where
    quantity-half_posted : quantity dest half_posted.inventory ≡ quantity dest s.inventory
    unfolding transfer_movement write_both record_movement
    quantity-half_posted =
        ground (arith, key_iff source dest, quantity-upsert source dest source_after s.inventory)

    posted-IsAccounted : {opening : Key → ℕ} → IsAccounted opening s → IsAccounted opening posted
    unfolding transfer_movement
    posted-IsAccounted v =
        post-IsAccounted _ (post-IsAccounted _ v (omega (arith, -ℤ_parts (pos 0) (pos n))))
          (omega (arith, quantity-half_posted))

    posted-Moves : (r : Transferred) (s' : Stock) → Posts r s' → Moves source dest n s r s'
    unfolding transfer_movement write_both record_movement
    posted-Moves r s' h =
        let a = ap (λ (t : Stock). quantity source t.inventory) h.0 in
        let b = ap (λ (t : Stock). quantity dest t.inventory) h.0 in
        let at_source = quantity-upsert source source source_after s.inventory in
        let then_source = quantity-upsert dest source dest_after half_posted.inventory in
        let at_dest = quantity-upsert dest dest dest_after half_posted.inventory in
        (
          ground (arith, key_iff dest source, key_iff source source, at_source, then_source),
          ground (arith, key_iff dest dest, at_dest),
          λ j x y. rw h.0 (
              ground (
                arith,
                key_iff dest j,
                key_iff source j,
                quantity-upsert source j source_after s.inventory,
                quantity-upsert dest j dest_after half_posted.inventory,
              )),
          h.2,
          ground (arith, key_iff dest source, key_iff source source, at_source, then_source),
          h.3,
          ground (arith, key_iff dest dest, at_dest),
        )

    total-posted :
        (p : Key → Bool) → p source ≡ p dest → total p posted.inventory ≡ total p s.inventory
    unfolding transfer_movement write_both record_movement
    total-posted p same = elim (Bool-cases (p dest)) [
      | inl counted ↦ ground (
        arith,
        quantity-half_posted,
        total-upsert p source source_after s.inventory,
        total-upsert p dest dest_after half_posted.inventory,
      )
      | inr ignored ↦ ground (
        arith,
        total-upsert p source source_after s.inventory,
        total-upsert p dest dest_after half_posted.inventory,
      )
    ]

-- The checks change nothing, and name two rows of one variant.
pub record Sound (tenant : ℕ) (p : TransferPlan) : Type 0 where
  pub apart : p.source ≢ p.dest
  pub some_pieces : 0 < p.pieces
  pub of_tenant : p.source.tenant ≡ tenant
  pub same_tenant : p.source.tenant ≡ p.dest.tenant
  pub same_variant : p.source.variant ≡ p.dest.variant

transfer_plan-Sound :
    (catalog : Catalog) (tenant : ℕ) (body : TransferRequest) (s : Stock) (p : TransferPlan)
    (t : Stock)
    → transfer_plan catalog tenant body s ≡ ok (p, t)
    → Sound tenant p × (t ≡ s)
unfolding transfer_plan
transfer_plan-Sound catalog tenant body s p t h = (
  record {
    apart = λ e. ground (arith, ap (λ (k : Key). k.warehouse) e);
    some_pieces = ground arith;
    of_tenant = ground arith;
    same_tenant = ground arith;
    same_variant = ground arith;
  },
  ground arith,
)

module _ (catalog : Catalog) (faults : Faults) (tenant user fresh : ℕ) (body : TransferRequest)
    (s : Stock) where
  -- What follows from the two halves of every plan, a transfer that succeeds has done.
  transfer-follows :
      (P : Transferred → Stock → Type 0)
      → ((p : TransferPlan) (r : Transferred) (s' : Stock)
          → transfer_plan catalog tenant body s ≡ ok (p, s)
          → Sound tenant p
          → Posts p.source p.dest p.pieces user fresh body s r s'
          → P r s')
      → Ensures (λ r. P r.0) (transfer catalog faults tenant user fresh body s)
  unfolding transfer
  transfer-follows P h = Ensures-follow _ (transfer_plan catalog tenant body s) _ λ p t e.
      let (sound, same) = transfer_plan-Sound catalog tenant body s p t e in
      let tx = transfer_tx p.source p.dest p.pieces user fresh body in
      rw same (
        Ensures-follow _ (execute faults tx s) _ λ r u f.
          Ensures-ok _ _ r u
            (execute-Ensures faults tx s P (
              Ensures-mono _ P (tx s)
                (transfer_tx-Posts p.source p.dest p.pieces user fresh body s sound.some_pieces)
                (λ q v. h p q v (rw same at e) sound)))
            f)

  -- A transfer between warehouses conserves the stock: the pieces of each variant of each tenant,
  -- added up over its warehouses, are as many after it as before.
  pub transfer_conserves :
      (t v : ℕ)
      → let p : Key → Bool = λ k. k.tenant == t && k.variant == v in
        Ensures
          (λ r s'. total p s'.inventory ≡ total p s.inventory)
          (transfer catalog faults tenant user fresh body s)
  transfer_conserves t v =
      let p : Key → Bool = λ k. k.tenant == t && k.variant == v in
      transfer-follows (λ r s'. total p s'.inventory ≡ total p s.inventory)
        λ plan r s' e sound h. rw h.0 (
          total-posted plan.source plan.dest plan.pieces user fresh body s sound.apart h.1 p
            (rw (sound.same_tenant, sound.same_variant)))

  -- A transfer keeps the books: the movements account for the stock, and the mirror agrees.
  pub transfer-IsAccounted :
      (opening : Key → ℕ)
      → IsAccounted opening s
      → Ensures (λ r. IsAccounted opening) (transfer catalog faults tenant user fresh body s)
  transfer-IsAccounted opening v =
      transfer-follows (λ r. IsAccounted opening)
        λ plan r s' e sound h.
          rw h.0 (
            posted-IsAccounted plan.source plan.dest plan.pieces user fresh body s sound.apart h.1
              v)

  -- A transfer that succeeds takes the pieces from the source row, adds them to the destination
  -- row, reports the four quantities, and touches no other row of any tenant.
  pub transfer-Moves :
      {plan : TransferPlan}
      → transfer_plan catalog tenant body s ≡ ok (plan, s)
      → Ensures
          (λ r. Moves plan.source plan.dest plan.pieces s r.0)
          (transfer catalog faults tenant user fresh body s)
  transfer-Moves {plan} found =
      transfer-follows (Moves plan.source plan.dest plan.pieces s) λ p r s' e sound h.
        let same : p ≡ plan = ground arith in
        rw same at (posted-Moves p.source p.dest p.pieces user fresh body s sound.apart h.1 r s' h)

  -- Where the database lets the transaction run, a transfer is refused for want of stock exactly
  -- when the source row has fewer pieces than asked for.
  pub transfer_refuses :
      {plan : TransferPlan}
      → transfer_plan catalog tenant body s ≡ ok (plan, s)
      → (transfer catalog (λ _. none) tenant user fresh body s ≡ err insufficient_stock)
        ↔ (quantity plan.source s.inventory < plan.pieces)
  unfolding transfer execute transfer_tx
  transfer_refuses {plan} found = (λ h. ground arith, λ h. ground arith)

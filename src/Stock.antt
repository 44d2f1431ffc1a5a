-- ===== src/Stock.antt =====
-- The stock tables: `inventory`, its mirror `warehouse_inventory`, and `inventory_movements`
-- (prisma/schema.prisma), with the writes that the services make to them.
-- Ids are UUIDs in the source and are only compared, so they are numbers here. A quantity is an
-- integer column that the services never let below zero.
pub mod Ledger
pub mod Matching
use Prim.Native.String.{String}
use backend_pluseops.Base.{ℕ, ◌≡◌, ◌↔◌, Bool, true, ◌&&◌, Option, List, ◌∷◌, arith, Eq, ◌==◌}
use backend_pluseops.Base.Tables.{Table, upsert}
use backend_pluseops.Base.Int.{ℤ}

-- The unique index (tenant_id, product_variant_id, warehouse_id).
pub record Key : Type 0 where
  pub tenant : ℕ
  pub variant : ℕ
  pub warehouse : ℕ

abbrev pub key_eq : Key → Key → Bool
key_eq a b = a.tenant == b.tenant && (a.variant == b.variant && a.warehouse == b.warehouse)

pub key_iff : (a b : Key) → (key_eq a b ≡ true) ↔ (a ≡ b)
key_iff a b = (λ h. ground arith, λ h. ground arith)

instance abbrev pub key_instance : Eq Key
key_instance = record { beq = key_eq; beq_iff = key_iff }

pub data MovementType : Type 0 where
  adjustment transfer order_reservation order_release order_fulfillment : MovementType
  returned damaged lost counted : MovementType

pub record Movement : Type 0 where
  pub key : Key
  pub kind : MovementType
  pub quantity_before : ℕ
  pub quantity_changed : ℤ
  pub quantity_after : ℕ
  pub reason : String
  pub reference_type : Option String
  pub reference_id : Option ℕ
  pub created_by : ℕ

-- The movements are kept newest first.
pub record Stock : Type 0 where
  pub inventory : Table Key ℕ
  pub warehouse_inventory : Table Key ℕ
  pub movements : List Movement

-- UPDATE or INSERT of the inventory row, and the upsert of its mirror.
unfoldable pub write_both : Key → ℕ → Stock → Stock
write_both k n s = record s {
  inventory = upsert k n s.inventory;
  warehouse_inventory = upsert k n s.warehouse_inventory;
}

-- The inventory row alone.
unfoldable pub write_inventory : Key → ℕ → Stock → Stock
write_inventory k n s = record s { inventory = upsert k n s.inventory }

-- `tx.inventoryMovement.create`
unfoldable pub record_movement : Movement → Stock → Stock
record_movement m s = record s { movements = m ∷ s.movements }

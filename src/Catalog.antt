-- ===== src/Catalog.antt =====
-- The rows that the order and stock services only read: variants, warehouses, customers.
use backend_pluseops.Base.{ℕ, Bool, Option}
use backend_pluseops.Gst.{Product}

pub data VariantStatus : Type 0 where
  active inactive draft : VariantStatus

pub record Variant : Type 0 where
  pub status : VariantStatus
  pub price_cents : ℕ
  pub product : Product

-- The rows by tenant and id.
pub record Catalog : Type 0 where
  pub variant : ℕ → ℕ → Option Variant
  pub has_warehouse : ℕ → ℕ → Bool

-- ===== src/Orders/Planning.antt =====
-- What `create` of src/modules/orders/orders.service.js reads and decides before its transaction,
-- with `resolveOrderDefaults` and `placeOfSupply` of src/modules/orders/gst.js and
-- `resolveOrderAddress` of src/modules/customers/customers.service.js.
use Prim.Native.String.{String}
use backend_pluseops.Base.{
  ℕ, Bool, true, false, not, Option, none, some, List, [], ◌∷◌, Result, ok, customer_not_found,
  address_not_found, address_type_mismatch, variant_not_found, variant_not_sellable,
  warehouse_not_found, get_or, if◌then◌else◌,
}
use backend_pluseops.Base.Checks.{◌>>=◌, ◌>>◌, require, fail_if}
use backend_pluseops.Gst.{StateCode, is_intra_state}
use backend_pluseops.Catalog.{Catalog, Variant, VariantStatus, active}
use backend_pluseops.Db.{Line, Channel, staff}
use backend_pluseops.Plans.{assert_within_plan}
use backend_pluseops.Orders.Pricing.{Item, Totals, no_totals, price_items}

pub data Registration : Type 0 where
  regular composition unregistered : Registration

-- `settings.metadata`: each key may be absent.
pub record Settings : Type 0 where
  pub gst_rate : Option ℕ
  pub currency : Option String
  pub registration : Option Registration
  pub prices_include_tax : Bool
  pub state_code : Option StateCode

pub data AddressType : Type 0 where
  shipping billing : AddressType

-- `state` is what `toStateCode` makes of the text.
pub record Address : Type 0 where
  pub kind : AddressType
  pub state : Option StateCode

pub record Customer : Type 0 where
  pub state_code : Option StateCode
  -- the first two digits of the GSTIN
  pub gstin_state : Option StateCode

-- The rows that `create` reads outside its transaction.
pub record Reads : Type 0 where
  pub catalog : Catalog
  -- by tenant, and by tenant and customer
  pub settings : ℕ → Settings
  pub customer : ℕ → ℕ → Option Customer
  -- by tenant, customer and type, and by tenant, customer and id
  pub default_address : ℕ → ℕ → AddressType → Option Address
  pub address : ℕ → ℕ → ℕ → Option Address
  -- the limit on orders per month, and the orders of this month
  pub order_limit : ℕ → Option ℕ
  pub orders_this_month : ℕ → ℕ
  -- `env.DEFAULT_GST_RATE_PERCENT`
  pub default_gst_rate : ℕ

pub record OrderRequest : Type 0 where
  pub customer_id : ℕ
  pub items : List Item
  pub shipping_total : ℕ
  pub currency : Option String
  pub shipping_address_id : Option ℕ
  pub billing_address_id : Option ℕ
  pub channel : Option Channel

-- `a ?? b`
abbrev coalesce {ℓ} : {A : Type ℓ} → Option A → Option A → Option A
coalesce none b = b
coalesce (some a) b = some a

-- `!NO_GST_REGISTRATIONS.includes(taxProfile.registrationType)`
unfoldable pub charges_gst : Option Registration → Bool
charges_gst none = true
charges_gst (some Registration.regular) = true
charges_gst (some _) = false

-- `address.type !== type`
same_type : AddressType → AddressType → Bool
same_type AddressType.shipping AddressType.shipping = true
same_type AddressType.billing AddressType.billing = true
same_type _ _ = false

unfoldable pub resolve_order_address :
    Reads → ℕ → ℕ → AddressType → Option ℕ → Result (Option Address)
unfolding same_type
resolve_order_address reads customer tenant kind none =
    ok (reads.default_address tenant customer kind)
resolve_order_address reads customer tenant kind (some id) = do
  a ← require (reads.address tenant customer id) address_not_found
  fail_if (not (same_type a.kind kind)) address_type_mismatch
  ok (some a)

state_of : Option Address → Option StateCode
state_of none = none
state_of (some a) = a.state

unfoldable pub place_of_supply : Option Address → Option Address → Customer → Option StateCode
unfolding state_of
place_of_supply ship_to bill_to customer =
    coalesce (state_of ship_to)
      (coalesce (state_of bill_to) (coalesce customer.state_code customer.gstin_state))

is_active : VariantStatus → Bool
is_active active = true
is_active _ = false

-- The loop that finds each item's variant.
unfoldable pub find_variants : Catalog → ℕ → List Item → Result (List (Item × Variant))
unfolding is_active
find_variants catalog tenant [] = ok []
find_variants catalog tenant (item ∷ items) = do
  v ← require (catalog.variant tenant item.variant) variant_not_found
  fail_if (not (is_active v.status)) variant_not_sellable
  rest ← find_variants catalog tenant items
  ok ((item, v) ∷ rest)

-- The loop that checks each item's warehouse.
unfoldable pub check_warehouses : Catalog → ℕ → List Item → Result (Unit {0})
check_warehouses catalog tenant [] = ok tt
check_warehouses catalog tenant (item ∷ items) = do
  fail_if (not (catalog.has_warehouse tenant item.warehouse)) warehouse_not_found
  check_warehouses catalog tenant items

-- What the transaction is given.
pub record OrderPlan : Type 0 where
  pub tenant : ℕ
  pub customer : ℕ
  pub lines : List Line
  pub totals : Totals
  pub shipping_total : ℕ
  pub currency : String
  pub intra_state : Bool
  pub place_of_supply : Option StateCode
  pub channel : Channel

unfoldable pub plan_order : Reads → ℕ → OrderRequest → Result OrderPlan
plan_order reads tenant body = do
  let settings = reads.settings tenant
  let taxed = charges_gst settings.registration
  customer ← require (reads.customer tenant body.customer_id) customer_not_found
  assert_within_plan (reads.order_limit tenant) (reads.orders_this_month tenant)
  ship_to ←
      resolve_order_address reads body.customer_id tenant AddressType.shipping
        body.shipping_address_id
  bill_to ←
      resolve_order_address reads body.customer_id tenant AddressType.billing
        body.billing_address_id
  let supply_state = place_of_supply ship_to bill_to customer
  let intra_state = is_intra_state settings.state_code supply_state
  found ← find_variants reads.catalog tenant body.items
  check_warehouses reads.catalog tenant body.items
  priced ←
      price_items
        (record {
          charges_gst = taxed;
          default_rate = if taxed then get_or settings.gst_rate reads.default_gst_rate else 0;
          inclusive = settings.prices_include_tax;
          intra_state = intra_state;
        })
        no_totals found
  ok (record {
    tenant = tenant;
    customer = body.customer_id;
    lines = priced.1;
    totals = priced.0;
    shipping_total = body.shipping_total;
    currency = get_or body.currency (get_or settings.currency "INR");
    intra_state = intra_state;
    place_of_supply = coalesce supply_state settings.state_code;
    channel = get_or body.channel staff;
  })

-- ===== src/Addresses.antt =====
-- The addresses of customers: createAddress, updateAddress, deleteAddress and addAddress of
-- src/modules/customers/customers.service.js, with customers.repository.js. The rows stand oldest
-- first, so that the first one is the oldest; the columns of the address itself are left out.
pub mod Default
pub mod Apart
pub mod Changed
pub mod Tidy
pub mod Moving
pub mod Editing
use backend_pluseops.Base.{
  ℕ, Bool, true, false, not, ◌&&◌, Option, none, some, List, [], ◌∷◌, ◌++◌, map, Result, ok, err,
  nat_eq, ◌==◌, get_or, if◌then◌else◌, address_not_found, customer_not_found, unique_violation,
}
use backend_pluseops.Base.Checks.{◌>>=◌, ◌>>◌, require, fail_if}
use backend_pluseops.Base.Lists.{any, find, filter}
use backend_pluseops.Orders.Planning.{AddressType}

pub record CustomerAddress : Type 0 where
  pub id : ℕ
  pub tenant_id : ℕ
  pub customer_id : ℕ
  pub kind : AddressType
  pub is_default : Bool

abbrev pub same_kind : AddressType → AddressType → Bool
same_kind AddressType.shipping AddressType.shipping = true
same_kind AddressType.billing AddressType.billing = true
same_kind AddressType.shipping AddressType.billing = false
same_kind AddressType.billing AddressType.shipping = false

-- `where: { tenantId, customerId, type }`
abbrev pub is_of : ℕ → ℕ → AddressType → CustomerAddress → Bool
is_of tenant customer kind a =
    a.tenant_id == tenant && (a.customer_id == customer && same_kind a.kind kind)

abbrev pub is_default_of : ℕ → ℕ → AddressType → CustomerAddress → Bool
is_default_of tenant customer kind a = is_of tenant customer kind a && a.is_default

abbrev pub cleared : ℕ → ℕ → AddressType → CustomerAddress → CustomerAddress
cleared tenant customer kind a =
    if is_default_of tenant customer kind a then record a { is_default = false } else a

-- `clearDefault`
unfoldable pub clear_default : ℕ → ℕ → AddressType → List CustomerAddress → List CustomerAddress
clear_default tenant customer kind rows = map (cleared tenant customer kind) rows

-- The oldest row of the type becomes the default.
unfoldable pub promote_oldest : ℕ → ℕ → AddressType → List CustomerAddress → List CustomerAddress
promote_oldest tenant customer kind [] = []
promote_oldest tenant customer kind (a ∷ rows) =
    let rest = promote_oldest tenant customer kind rows in
    if is_of tenant customer kind a then record a { is_default = true } ∷ rows else a ∷ rest

-- `ensureDefault`
unfoldable pub ensure_default : ℕ → ℕ → AddressType → List CustomerAddress → List CustomerAddress
ensure_default tenant customer kind rows =
    if any (is_default_of tenant customer kind) rows
    then rows
    else promote_oldest tenant customer kind rows

-- `clearDefault`, where the request asks for the default.
unfoldable pub make_way : Bool → ℕ → ℕ → AddressType → List CustomerAddress → List CustomerAddress
make_way true tenant customer kind rows = clear_default tenant customer kind rows
make_way false tenant customer kind rows = rows

-- The unique index over the customer and the type of the rows that are defaults
-- (prisma/migrations/20261024_phase29_customer_addresses): another row has the place of the row
-- `id`. A customer's addresses share its tenant, so `ensure_default` cannot meet the index.
abbrev pub is_rival : ℕ → ℕ → AddressType → CustomerAddress → Bool
is_rival id customer kind a =
    not (a.id == id) && (a.customer_id == customer && (same_kind a.kind kind && a.is_default))

unfoldable pub is_taken : ℕ → ℕ → AddressType → List CustomerAddress → Bool
is_taken id customer kind rows = any (is_rival id customer kind) rows

-- The row that `createAddress` of the repository writes; the id is the database's.
unfoldable pub new_address : ℕ → ℕ → ℕ → AddressType → Bool → CustomerAddress
new_address id tenant customer kind wanted = record {
  id = id;
  tenant_id = tenant;
  customer_id = customer;
  kind = kind;
  is_default = wanted;
}

-- `addAddress`
unfoldable pub add_address :
    ℕ → ℕ → ℕ → AddressType → Option Bool → List CustomerAddress → Result (List CustomerAddress)
add_address id tenant customer kind asked rows = do
  let wanted = get_or asked false
  let way = make_way wanted tenant customer kind rows
  fail_if (wanted && is_taken id customer kind way) unique_violation
  ok (
      ensure_default tenant customer kind
        (way ++ (new_address id tenant customer kind wanted ∷ [])))

-- `createAddress`: `known` tells whether the customer is there.
unfoldable pub create_address :
    Bool
    → ℕ
    → ℕ
    → ℕ
    → AddressType
    → Option Bool
    → List CustomerAddress
    → Result (List CustomerAddress)
create_address known id tenant customer kind asked rows = do
  fail_if (not known) customer_not_found
  add_address id tenant customer kind asked rows

-- `findAddress`
unfoldable pub find_address : ℕ → ℕ → ℕ → List CustomerAddress → Option CustomerAddress
find_address id tenant customer rows =
    find (λ a. a.id == id && (a.customer_id == customer && a.tenant_id == tenant)) rows

abbrev pub changed : ℕ → Option AddressType → Option Bool → CustomerAddress → CustomerAddress
changed id kind asked a =
    if a.id == id
    then record a { kind = get_or kind a.kind; is_default = get_or asked a.is_default }
    else a

-- `ensureDefault` of the new type, where the type changes.
unfoldable pub ensure_moved :
    Bool → ℕ → ℕ → AddressType → List CustomerAddress → List CustomerAddress
ensure_moved true tenant customer kind rows = rows
ensure_moved false tenant customer kind rows = ensure_default tenant customer kind rows

-- `updateAddress`: only a request for the default clears the one there is.
unfoldable pub update_address :
    Bool
    → ℕ
    → ℕ
    → ℕ
    → Option AddressType
    → Option Bool
    → List CustomerAddress
    → Result (List CustomerAddress)
update_address known id tenant customer kind asked rows = do
  fail_if (not known) customer_not_found
  existing ← require (find_address id tenant customer rows) address_not_found
  let to = get_or kind existing.kind
  let way = make_way (get_or asked false) tenant customer to rows
  fail_if (get_or asked existing.is_default && is_taken id customer to way) unique_violation
  let written = map (changed id kind asked) way
  let kept = ensure_default tenant customer existing.kind written
  ok (ensure_moved (same_kind to existing.kind) tenant customer to kept)

-- `deleteAddress`
unfoldable pub delete_address :
    Bool → ℕ → ℕ → ℕ → List CustomerAddress → Result (List CustomerAddress)
delete_address known id tenant customer rows = do
  fail_if (not known) customer_not_found
  existing ← require (find_address id tenant customer rows) address_not_found
  ok (ensure_default tenant customer existing.kind (filter (λ a. not (a.id == id)) rows))

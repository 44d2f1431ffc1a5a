-- ===== src/Addresses/Tidy.antt =====
-- The state of the addresses of all customers.
use backend_pluseops.Base.{ℕ, ◌≤◌, inl, inr, List, nat_eq}
use backend_pluseops.Orders.Planning.{AddressType}
use backend_pluseops.Addresses.{CustomerAddress}
use backend_pluseops.Addresses.Default.{IsSettled}
use backend_pluseops.Addresses.Apart.{occurrences, same_or_apart, IsApart}

-- Each type of address of each customer has one default, if it has an address, and each id one row.
pub record IsTidy (rows : List CustomerAddress) : Type 0 where
  pub settled : (t c : ℕ) (j : AddressType) → IsSettled t c j rows
  pub keyed : (id : ℕ) → occurrences id rows ≤ 1

-- What is settled for one type, and left alone for the others, is settled for all.
pub all_settled :
    (tenant customer : ℕ) (kind : AddressType) (rows later : List CustomerAddress)
    → IsSettled tenant customer kind later
    → ((t c : ℕ) (j : AddressType) → IsApart t c j tenant customer kind → IsSettled t c j later)
    → (t c : ℕ) (j : AddressType) → IsSettled t c j later
all_settled tenant customer kind rows later mine others t c j =
    elim (same_or_apart t c j tenant customer kind) [
      | inl (one, two, three) ↦ rw (one, two, three) mine
      | inr apart ↦ others t c j apart
    ]

-- ===== src/Examples/Settling.antt =====
-- A customer's addresses: the first of a type becomes the default, and a change of type can meet the index.
use backend_pluseops.Base.{◌≡◌, refl, true, false, none, some, [], ◌∷◌, ok, err, unique_violation}
use backend_pluseops.Orders.Planning.{AddressType}
use backend_pluseops.Addresses.{
  CustomerAddress, add_address, new_address, is_taken, make_way, clear_default, promote_oldest,
  ensure_default, create_address, find_address, update_address, delete_address, ensure_moved,
}
use backend_pluseops.Addresses.Apart.{occurrences}
use backend_pluseops.Addresses.Tidy.{IsTidy}
use backend_pluseops.Addresses.Editing.{added, moved, none_yet, then_edit, Edits-IsTidy}

abbrev home : CustomerAddress
home = record {
  id = 1;
  tenant_id = 1;
  customer_id = 6;
  kind = AddressType.shipping;
  is_default = true;
}

abbrev shop : CustomerAddress
shop = record home { id = 2; kind = AddressType.billing }

first_home : create_address true 1 1 6 AddressType.shipping none [] ≡ ok (home ∷ [])
unfolding create_address add_address new_address is_taken make_way clear_default ensure_default
    promote_oldest
first_home = refl

-- A second address that asks for the default takes it.
moved_default :
    create_address true 3 1 6 AddressType.shipping (some true) (home ∷ [])
    ≡ ok (record home { is_default = false } ∷ record home { id = 3 } ∷ [])
unfolding create_address add_address new_address is_taken make_way clear_default ensure_default
    promote_oldest
moved_default = refl

-- The billing address cannot become a shipping address next to the shipping default: its mark meets
-- the index.
refused_move :
    update_address true 2 1 6 (some AddressType.shipping) none (home ∷ shop ∷ [])
    ≡ err unique_violation
unfolding update_address find_address is_taken make_way
refused_move = refl

deleted_default :
    delete_address true 1 1 6 (home ∷ record home { id = 3; is_default = false } ∷ [])
    ≡ ok (record home { id = 3 } ∷ [])
unfolding delete_address find_address ensure_default promote_oldest
deleted_default = refl

-- The home becomes a billing address, and the other address the shipping default.
moved_home :
    update_address true 1 1 6
      (some AddressType.billing)
      none
      (record home { is_default = false } ∷ record home { id = 3 } ∷ [])
    ≡ ok (record home { kind = AddressType.billing } ∷ record home { id = 3 } ∷ [])
unfolding update_address find_address is_taken make_way clear_default ensure_default ensure_moved
    promote_oldest
moved_home = refl

Edits-IsTidy_example :
    IsTidy (record home { kind = AddressType.billing } ∷ record home { id = 3 } ∷ [])
unfolding occurrences
Edits-IsTidy_example =
    Edits-IsTidy (record home { kind = AddressType.billing } ∷ record home { id = 3 } ∷ []) (
      then_edit
        (then_edit (then_edit none_yet (added true 1 1 6 AddressType.shipping none refl first_home))
          (added true 3 1 6 AddressType.shipping (some true) refl moved_default))
        (moved true 1 1 6 (some AddressType.billing) none moved_home))

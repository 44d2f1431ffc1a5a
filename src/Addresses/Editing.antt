-- ===== src/Addresses/Editing.antt =====
-- The addresses of all customers after any sequence of createAddress, updateAddress and
-- deleteAddress.
use backend_pluseops.Base.{
  ℕ, ◌+◌, ◌≤◌, ◌≡◌, Bool, false, not, ◌&&◌, inl, inr, Option, some, List, [], ◌∷◌, ◌++◌, map, ok,
  nat_eq, ◌==◌, get_or, if◌then◌else◌, arith, Option-cases,
}
use backend_pluseops.Base.Lists.{filter}
use backend_pluseops.Orders.Planning.{AddressType}
use backend_pluseops.Addresses.{
  CustomerAddress, same_kind, is_taken, ensure_default, ensure_moved, make_way, new_address,
  find_address, changed, add_address, create_address, update_address, delete_address,
}
use backend_pluseops.Addresses.Default.{
  defaults, addresses, ensure_default-IsSettled, added_row, defaults-filter,
}
use backend_pluseops.Addresses.Apart.{
  occurrences, IsSame-trans, same-IsSettled, ensure_default-occurrences, make_way-occurrences,
  ensure_default-IsSame, make_way-IsSame, append-IsSame, filter-IsSame,
}
use backend_pluseops.Addresses.Changed.{same_kind_refl, found-IsOnly, found-is_of, IsOnly-IsOwn}
use backend_pluseops.Addresses.Tidy.{IsTidy, all_settled}
use backend_pluseops.Addresses.Moving.{updated-IsTidy}

occurrences-append :
    (j : ℕ) (rows : List CustomerAddress) (a : CustomerAddress)
    → occurrences j (rows ++ (a ∷ [])) ≡ occurrences j rows + (if a.id == j then 1 else 0)
unfolding occurrences
occurrences-append j [] a = omega arith
occurrences-append j (b ∷ rows) a = omega (arith, occurrences-append j rows a)

occurrences-filter :
    (j id : ℕ) (rows : List CustomerAddress)
    → occurrences j (filter (λ (a : CustomerAddress). not (a.id == id)) rows) ≤ occurrences j rows
unfolding occurrences
occurrences-filter j id [] = omega arith
occurrences-filter j id (a ∷ rows) = ground (arith, occurrences-filter j id rows)

module _ (rows : List CustomerAddress) (h : IsTidy rows) (tenant customer : ℕ) where
  added-IsTidy :
      (id : ℕ) (kind : AddressType) (wanted : Bool)
      → occurrences id rows ≡ 0
      → IsTidy (
          ensure_default tenant customer kind (
            make_way wanted tenant customer kind rows
            ++ (new_address id tenant customer kind wanted ∷ [])))
  unfolding new_address
  added-IsTidy id kind wanted fresh =
      let way = make_way wanted tenant customer kind rows in
      let new = new_address id tenant customer kind wanted in
      let now = way ++ (new ∷ []) in
      record {
        settled =
            all_settled tenant customer kind rows (ensure_default tenant customer kind now)
              (ensure_default-IsSettled tenant customer kind now (
                added_row tenant customer kind id wanted rows
                  (h.settled tenant customer kind).at_most))
              (λ t c j apart.
                same-IsSettled t c j rows (ensure_default tenant customer kind now)
                  (IsSame-trans t c j rows now _
                    (IsSame-trans t c j rows way now
                      (make_way-IsSame tenant customer kind t c j apart wanted rows)
                      (append-IsSame tenant customer kind t c j apart new way
                        (ground (arith, same_kind_refl kind))))
                    (ensure_default-IsSame tenant customer kind t c j apart now))
                  (h.settled t c j));
        keyed = λ j. ground (
          arith,
          ensure_default-occurrences tenant customer kind j now,
          occurrences-append j way new,
          make_way-occurrences tenant customer kind wanted j rows,
          h.keyed j,
          fresh,
        );
      }

  removed-IsTidy :
      (id : ℕ) (e : CustomerAddress)
      → find_address id tenant customer rows ≡ some e
      → IsTidy (
          ensure_default tenant customer e.kind
            (filter (λ (a : CustomerAddress). not (a.id == id)) rows))
  removed-IsTidy id e found =
      let kept = filter (λ (a : CustomerAddress). not (a.id == id)) rows in
      let only = found-IsOnly id e tenant customer rows (h.keyed id) found in
      let ours = found-is_of id e tenant customer rows found in
      let own = IsOnly-IsOwn id tenant customer e rows ours only in
      record {
        settled =
            all_settled tenant customer e.kind rows (ensure_default tenant customer e.kind kept)
              (ensure_default-IsSettled tenant customer e.kind kept (
                omega (
                  arith,
                  defaults-filter tenant customer e.kind (λ (a : CustomerAddress). not (a.id == id))
                      rows,
                  (h.settled tenant customer e.kind).at_most,
                )))
              (λ t c j apart.
                same-IsSettled t c j rows (ensure_default tenant customer e.kind kept)
                  (IsSame-trans t c j rows kept _
                    (filter-IsSame tenant customer e.kind t c j apart id rows own)
                    (ensure_default-IsSame tenant customer e.kind t c j apart kept))
                  (h.settled t c j));
        keyed = λ j. omega (
          arith,
          ensure_default-occurrences tenant customer e.kind j kept,
          occurrences-filter j id rows,
          h.keyed j,
        );
      }

create_address-IsTidy :
    (known : Bool) (id tenant customer : ℕ) (kind : AddressType) (asked : Option Bool)
    (rows later : List CustomerAddress)
    → occurrences id rows ≡ 0
    → create_address known id tenant customer kind asked rows ≡ ok later
    → IsTidy rows
    → IsTidy later
unfolding create_address add_address
create_address-IsTidy known id tenant customer kind asked rows later fresh e h =
    let wanted = get_or asked false in
    let way = make_way wanted tenant customer kind rows in
    let new = new_address id tenant customer kind wanted in
    let is_later : ensure_default tenant customer kind (way ++ (new ∷ [])) ≡ later =
      ground (arith, e) in
    rw is_later at (added-IsTidy rows h tenant customer id kind wanted fresh)

delete_address-IsTidy :
    (known : Bool) (id tenant customer : ℕ) (rows later : List CustomerAddress)
    → delete_address known id tenant customer rows ≡ ok later
    → IsTidy rows
    → IsTidy later
unfolding delete_address
delete_address-IsTidy known id tenant customer rows later e h =
    elim (Option-cases (find_address id tenant customer rows)) [
      | inl gone ↦ ground arith
      | inr (a, found) ↦
          let is_later : ensure_default tenant customer a.kind
                (filter (λ (b : CustomerAddress). not (b.id == id)) rows)
              ≡ later =
            ground (arith, e, found) in
          rw is_later at (removed-IsTidy rows h tenant customer id a found)
    ]

update_address-IsTidy :
    (known : Bool) (id tenant customer : ℕ) (kind : Option AddressType) (asked : Option Bool)
    (rows later : List CustomerAddress)
    → update_address known id tenant customer kind asked rows ≡ ok later
    → IsTidy rows
    → IsTidy later
unfolding update_address
update_address-IsTidy known id tenant customer kind asked rows later e h =
    elim (Option-cases (find_address id tenant customer rows)) [
      | inl gone ↦ ground arith
      | inr (a, found) ↦
          let to = get_or kind a.kind in
          let way = make_way (get_or asked false) tenant customer to rows in
          let free : (get_or asked a.is_default && is_taken id customer to way) ≡ false =
            ground (arith, e, found) in
          let is_later : ensure_moved (same_kind to a.kind) tenant customer to
                (ensure_default tenant customer a.kind (map (changed id kind asked) way))
              ≡ later =
            ground (arith, e, found) in
          rw is_later at (updated-IsTidy rows h tenant customer id a kind asked found free)
    ]

-- A request that succeeds; one that raises changes nothing. The database gives a new address an id that
-- no address has.
pub data Edit : List CustomerAddress → List CustomerAddress → Type 0 where
  added :
      {rows later : List CustomerAddress} (known : Bool) (id tenant customer : ℕ)
      (kind : AddressType) (asked : Option Bool)
      → occurrences id rows ≡ 0
      → create_address known id tenant customer kind asked rows ≡ ok later
      → Edit rows later
  moved :
      {rows later : List CustomerAddress} (known : Bool) (id tenant customer : ℕ)
      (kind : Option AddressType) (asked : Option Bool)
      → update_address known id tenant customer kind asked rows ≡ ok later
      → Edit rows later
  deleted :
      {rows later : List CustomerAddress} (known : Bool) (id tenant customer : ℕ)
      → delete_address known id tenant customer rows ≡ ok later
      → Edit rows later

pub data Edits : List CustomerAddress → Type 0 where
  none_yet : Edits []
  then_edit : {rows later : List CustomerAddress} → Edits rows → Edit rows later → Edits later

Edit-IsTidy : (rows later : List CustomerAddress) → Edit rows later → IsTidy rows → IsTidy later
Edit-IsTidy rows later (added known id tenant customer kind asked fresh e) h =
    create_address-IsTidy known id tenant customer kind asked rows later fresh e h
Edit-IsTidy rows later (moved known id tenant customer kind asked e) h =
    update_address-IsTidy known id tenant customer kind asked rows later e h
Edit-IsTidy rows later (deleted known id tenant customer e) h =
    delete_address-IsTidy known id tenant customer rows later e h

empty-IsTidy : IsTidy []
unfolding defaults addresses occurrences
empty-IsTidy = record {
  settled = λ t c j. record { at_most = omega arith; some_default = λ n. omega arith };
  keyed = λ id. omega arith;
}

-- After any sequence of requests of any customers that create, change and delete addresses, each run to
-- its end before the next, starting without addresses: each type of address of each customer has
-- exactly one default, if it has an address, and each id is of one address at most.
pub Edits-IsTidy : (rows : List CustomerAddress) → Edits rows → IsTidy rows
Edits-IsTidy rows none_yet = empty-IsTidy
Edits-IsTidy rows (then_edit {rows = before} edits edit) =
    Edit-IsTidy before rows edit (Edits-IsTidy before edits)

-- ===== src/Addresses/Moving.antt =====
-- What updateAddress does to the defaults of every type.
use backend_pluseops.Base.{
  ℕ, ◌≤◌, ◌≡◌, sym, ap, ◌∙◌, Bool, true, false, ◌&&◌, inl, inr, Option, none, some, List, [], ◌∷◌,
  map, nat_eq, ◌==◌, get_or, arith, Bool-cases,
}
use backend_pluseops.Base.Lists.{any, All, All-mono}
use backend_pluseops.Orders.Planning.{AddressType}
use backend_pluseops.Addresses.{
  CustomerAddress, same_kind, is_of, is_rival, is_taken, ensure_default, ensure_moved, make_way,
  find_address, changed,
}
use backend_pluseops.Addresses.Default.{defaults, IsSettled, ensure_default-IsSettled}
use backend_pluseops.Addresses.Apart.{
  occurrences, same_or_apart, IsApart, IsSame, IsSame-trans, same-IsSettled, same_kind-eq,
  same_kind_apart, ensure_default-occurrences, make_way-occurrences, ensure_default-IsSame,
  make_way-IsSame,
}
use backend_pluseops.Addresses.Changed.{
  true_or_false, IsOnly, found-IsOnly, found-is_of, IsOwn, IsOnly-IsOwn, written-occurrences,
  cleared-IsOwn, written-IsSame, marked-le, unmarked-le, left-le, make_way-le,
}
use backend_pluseops.Addresses.Tidy.{IsTidy, all_settled}

All-all : {A : Type 0} (P : A → Type 0) (xs : List A) → ((x : A) → P x) → All P xs
All-all P [] f = tt
All-all P (x ∷ xs) f = (f x, All-all P xs f)

-- The row of the id is to have no mark.
unmarked_rows :
    (id tenant customer : ℕ) (kind : AddressType) (e : CustomerAddress)
    (rows : List CustomerAddress) (o : Option Bool)
    → IsOnly id e rows
    → get_or o e.is_default ≡ false
    → All
        (λ (a : CustomerAddress). (a.id == id) ≡ true → get_or o a.is_default ≡ false)
        (make_way (get_or o false) tenant customer kind rows)
unfolding make_way
unmarked_rows id tenant customer kind e rows none only plain =
    All-mono _ _ rows (λ a it same. ap (λ (b : CustomerAddress). b.is_default) (it same) ∙ plain)
      only
unmarked_rows id tenant customer kind e rows (some b) only plain =
    All-all _ (make_way b tenant customer kind rows) (λ a same. plain)

module _ (rows : List CustomerAddress) (h : IsTidy rows) (tenant customer : ℕ) where
  -- What updateAddress has written when it has not raised, for the address that it found.
  module _ (id : ℕ) (e : CustomerAddress) (kind : Option AddressType) (asked : Option Bool)
      (found : find_address id tenant customer rows ≡ some e)
      (free : (get_or asked e.is_default
          && is_taken id customer
              (get_or kind e.kind)
              (make_way (get_or asked false) tenant customer (get_or kind e.kind) rows))
        ≡ false) where
    abbrev to : AddressType
    to = get_or kind e.kind

    abbrev way : List CustomerAddress
    way = make_way (get_or asked false) tenant customer to rows

    abbrev now : List CustomerAddress
    now = map (changed id kind asked) way

    owned : IsOwn id tenant customer e.kind way
    owned = cleared-IsOwn id tenant customer e.kind kind asked (get_or asked false) to rows (
        IsOnly-IsOwn id tenant customer e rows (found-is_of id e tenant customer rows found)
          (found-IsOnly id e tenant customer rows (h.keyed id) found))

    now-occurrences : (j : ℕ) → occurrences j now ≡ occurrences j rows
    now-occurrences j =
        written-occurrences id tenant customer e.kind kind asked j way
        ∙ make_way-occurrences tenant customer to (get_or asked false) j rows

    way-le : (t c : ℕ) (j : AddressType) → defaults t c j way ≤ 1
    way-le t c j = omega (
      arith,
      (h.settled t c j).at_most,
      make_way-le id tenant customer e.kind kind asked (get_or asked false) to t c j rows,
    )

    only : IsOnly id e rows
    only = found-IsOnly id e tenant customer rows (h.keyed id) found

    now_to-le : defaults tenant customer to now ≤ 1
    unfolding is_taken
    now_to-le = elim (Bool-cases (get_or asked e.is_default)) [
      | inl marked ↦
          let alone : any (is_rival id customer to) way ≡ false = ground (arith, free, marked) in
          omega (
            arith,
            marked-le id tenant customer e.kind kind asked way alone,
            make_way-occurrences tenant customer to (get_or asked false) id rows,
            h.keyed id,
          )
      | inr plain ↦ omega (
        arith,
        way-le tenant customer to,
        unmarked-le id tenant customer e.kind kind asked tenant customer to way
            (unmarked_rows id tenant customer to e rows asked only plain),
      )
    ]

    now-IsSame :
        (t c : ℕ) (j : AddressType)
        → IsApart t c j tenant customer e.kind
        → IsApart t c j tenant customer to
        → IsSame t c j rows now
    now-IsSame t c j was is =
        IsSame-trans t c j rows way now
          (make_way-IsSame tenant customer to t c j is (get_or asked false) rows)
          (written-IsSame id tenant customer e.kind kind asked t c j was is way owned)

    abbrev kept : List CustomerAddress
    kept = ensure_default tenant customer e.kind now

    unmoved-settled : to ≡ e.kind → (t c : ℕ) (j : AddressType) → IsSettled t c j kept
    unmoved-settled same =
        all_settled tenant customer e.kind rows kept
          (ensure_default-IsSettled tenant customer e.kind now
            (omega (arith, now_to-le, ap (λ k. defaults tenant customer k now) same)))
          (λ t c j apart.
            same-IsSettled t c j rows kept
              (IsSame-trans t c j rows now kept (now-IsSame t c j apart (rw same apart))
                (ensure_default-IsSame tenant customer e.kind t c j apart now))
              (h.settled t c j))

    module _ (moved : same_kind to e.kind ≡ false) where
      to-IsApart : IsApart tenant customer to tenant customer e.kind
      to-IsApart a ours = ground (arith, same_kind_apart a.kind to e.kind moved)

      own-IsApart : IsApart tenant customer e.kind tenant customer to
      own-IsApart a ours = elim (Bool-cases (is_of tenant customer to a)) [
        | inr other ↦ other
        | inl both ↦ absurd (true_or_false (sym ours ∙ to-IsApart a both))
      ]

      kept-settled :
          (t c : ℕ) (j : AddressType) → IsApart t c j tenant customer to → IsSettled t c j kept
      kept-settled t c j is = elim (same_or_apart t c j tenant customer e.kind) [
        | inl (one, two, three) ↦
            rw (one, two, three)
              (ensure_default-IsSettled tenant customer e.kind now (
                omega (
                  arith,
                  way-le tenant customer e.kind,
                  left-le id tenant customer e.kind kind asked own-IsApart way owned,
                )))
        | inr apart ↦
            same-IsSettled t c j rows kept
              (IsSame-trans t c j rows now kept (now-IsSame t c j apart is)
                (ensure_default-IsSame tenant customer e.kind t c j apart now))
              (h.settled t c j)
      ]

      moved-settled :
          (t c : ℕ) (j : AddressType) → IsSettled t c j (ensure_default tenant customer to kept)
      moved-settled =
          all_settled tenant customer to rows (ensure_default tenant customer to kept)
            (ensure_default-IsSettled tenant customer to kept (
              omega (
                arith,
                now_to-le,
                (ensure_default-IsSame tenant customer e.kind tenant customer to to-IsApart now).0,
              )))
            (λ t c j apart.
              same-IsSettled t c j kept (ensure_default tenant customer to kept)
                (ensure_default-IsSame tenant customer to t c j apart kept)
                (kept-settled t c j apart))

    pub updated-IsTidy : IsTidy (ensure_moved (same_kind to e.kind) tenant customer to kept)
    unfolding ensure_moved
    updated-IsTidy = elim (Bool-cases (same_kind to e.kind)) [
      | inl same ↦ rw same (record {
        settled = unmoved-settled (same_kind-eq to e.kind same);
        keyed = λ j. omega (
          arith,
          ensure_default-occurrences tenant customer e.kind j now,
          now-occurrences j,
          h.keyed j,
        );
      })
      | inr moved ↦ rw moved (record {
        settled = moved-settled moved;
        keyed = λ j. omega (
          arith,
          ensure_default-occurrences tenant customer to j kept,
          ensure_default-occurrences tenant customer e.kind j now,
          now-occurrences j,
          h.keyed j,
        );
      })
    ]

-- ===== src/Gstin/Checking.antt =====
-- What the check character of a GSTIN detects.
use backend_pluseops.Base.{
  ℕ, ◌+◌, ◌<◌, ◌≡◌, ◌≢◌, ◌++◌, ◌-◌, ◌%◌, Bool, true, false, not, List, [], ◌∷◌, arith,
}
use backend_pluseops.Gstin.{weight, check_sum, gstin_check_char}

weight_injective : (even : Bool) (a b : ℕ) → a < 36 → b < 36 → weight even a ≡ weight even b → a ≡ b
weight_injective true a b p q e = omega arith
weight_injective false a b p q e = omega arith

weight_small : (even : Bool) (a : ℕ) → a < 36 → weight even a < 36
weight_small true a p = omega arith
weight_small false a p = omega arith

-- The sum of the characters but one, and the place of that one.
check_sum-split :
    (even : Bool) (front back : List ℕ)
    → (n : ℕ) × (e : Bool) × ((c : ℕ) → check_sum even (front ++ c ∷ back) ≡ n + weight e c)
unfolding check_sum
check_sum-split even [] back = (check_sum (not even) back, even, λ c. omega arith)
check_sum-split even (x ∷ front) back =
    let (n, e, h) = check_sum-split (not even) front back in
    (weight even x + n, e, λ c. omega (arith, h c))

cancel_weight :
    (n v w : ℕ) → v < 36 → w < 36 → (36 - (n + v) % 36) % 36 ≡ (36 - (n + w) % 36) % 36 → v ≡ w
cancel_weight n v w p q e = omega arith

-- A GSTIN in which one character was mistaken for another has another check character.
pub gstin_check_char_detects :
    (front back : List ℕ) (a b : ℕ)
    → a < 36
    → b < 36
    → a ≢ b
    → gstin_check_char (front ++ a ∷ back) ≢ gstin_check_char (front ++ b ∷ back)
unfolding gstin_check_char
gstin_check_char_detects front back a b p q other same =
    let (n, e, h) = check_sum-split true front back in
    let eq : (36 - (n + weight e a) % 36) % 36 ≡ (36 - (n + weight e b) % 36) % 36 =
      omega (arith, h a, h b, same) in
    other (
      weight_injective e a b p q
        (cancel_weight n (weight e a) (weight e b) (weight_small e a p) (weight_small e b q) eq))

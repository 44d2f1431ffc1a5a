-- ===== src/Gstin.antt =====
-- src/modules/gst/india.js: the state codes, the check character of a GSTIN and the financial year.
-- A character is its index in GSTIN_CHARS, and a state code its number.
pub mod Checking
use backend_pluseops.Base.{
  ℕ, ◌+◌, ◌-◌, ◌*◌, ◌/◌, ◌%◌, Bool, true, not, List, [], ◌∷◌, leb, ◌==◌, if◌then◌else◌,
}
use backend_pluseops.Base.Lists.{any}

-- The codes of GST_STATES.
abbrev gst_states : List ℕ
gst_states =
    1 ∷ 2 ∷ 3 ∷ 4 ∷ 5 ∷ 6 ∷ 7 ∷ 8 ∷ 9 ∷ 10 ∷ 11 ∷ 12 ∷ 13 ∷ 14 ∷ 15 ∷ 16 ∷ 17 ∷ 18 ∷ 19 ∷ 20 ∷ 21
    ∷ 22 ∷ 23 ∷ 24 ∷ 26 ∷ 27 ∷ 29 ∷ 30 ∷ 31 ∷ 32 ∷ 33 ∷ 34 ∷ 35 ∷ 36 ∷ 37 ∷ 38 ∷ 97 ∷ []

-- `isStateCode`
unfoldable pub is_state_code : ℕ → Bool
is_state_code code = any (λ c. c == code) gst_states

-- What a character adds to the sum: it counts twice at an odd index.
abbrev pub weight : Bool → ℕ → ℕ
weight even c = let product = c * (if even then 1 else 2) in product / 36 + product % 36

-- The sum of the loop, from a character of even index on (`even`) or one of odd index.
unfoldable pub check_sum : Bool → List ℕ → ℕ
check_sum even [] = 0
check_sum even (c ∷ cs) = weight even c + check_sum (not even) cs

-- `gstinCheckChar`
unfoldable pub gstin_check_char : List ℕ → ℕ
unfolding check_sum
gstin_check_char first = (36 - check_sum true first % 36) % 36

-- The first year of `financialYear`, from the year and month of the day in India.
unfoldable pub financial_year : ℕ → ℕ → ℕ
financial_year year month = if leb 4 month then year else year - 1

-- ===== src/FileTree/Weights.antt =====
-- What the program relies on of `double` arithmetic, as a hypothesis: weights are the doubles that are
-- finite and not negative, and sums stay in the range of uint64_t, as they do for weights below 2^64.
use dupa.Base.{ℕ, ◌≤◌, ◌<◌, ◌≡◌, true, Platform}

module _ (pl : Platform) where
  open pl use {Double, of_ℕ, add, mul, div, lt, to_u64}

  -- The values that `sum += weight_` takes from 0 on.
  pub data IsSum (IsWeight : Double → Type 0) : ℕ → Type 0 where
    none_yet : IsSum IsWeight 0
    one_more :
        {s : ℕ} (w : Double)
        → IsSum IsWeight s
        → IsWeight w
        → IsSum IsWeight (to_u64 (add (of_ℕ s) w))

  pub record WeightLaws : Type 1 where
    pub IsWeight : Double → Type 0
    pub of_ℕ-IsWeight : (n : ℕ) → IsWeight (of_ℕ n)
    pub add-IsWeight : (a b : Double) → IsWeight a → IsWeight b → IsWeight (add a b)
    pub mul-IsWeight : (a b : Double) → IsWeight a → IsWeight b → IsWeight (mul a b)
    pub div-IsWeight : (a : Double) (n : ℕ) → IsWeight a → 0 < n → IsWeight (div a (of_ℕ n))
    -- adding a weight does not lower a sum, and rounding and truncation keep the order
    pub add_grows :
        (s : ℕ) (w : Double) → IsSum IsWeight s → IsWeight w → s ≤ to_u64 (add (of_ℕ s) w)
    pub add_mono :
        (s t : ℕ) (w : Double)
        → IsWeight w
        → s ≤ t
        → to_u64 (add (of_ℕ s) w) ≤ to_u64 (add (of_ℕ t) w)
    -- a quotient of at most one is below 1.1, and so is 0
    pub ratio_small :
        (y s : ℕ) → y ≤ s → 0 < s → lt (div (of_ℕ y) (of_ℕ s)) (div (of_ℕ 11) (of_ℕ 10)) ≡ true
    pub zero_small : lt (of_ℕ 0) (div (of_ℕ 11) (of_ℕ 10)) ≡ true

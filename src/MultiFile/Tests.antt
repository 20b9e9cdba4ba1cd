-- ===== src/MultiFile/Tests.antt =====
-- The statistics of the data of exercises/19_multi_file/main.c in whole numbers, and the theorem on
-- them.
use c_programming.Prelude.{
  ℕ, zero, suc, ◌+◌, ◌-◌, ◌*◌, ◌/◌, ◌≡◌, refl, some, [], ◌∷◌, ltb, leb, ◌==◌, if◌then◌else◌, arith,
}
use c_programming.MultiFile.{
  Double, stats_mean, stats_variance, stats_stddev, stats_min, stats_max, sum_loop, square_loop,
  min_loop, max_loop, vec2, vec2_len, vec2_norm,
}
use c_programming.MultiFile.Extremes.{IsOrder, IsBest, stats_min-stats_max}
use c_programming.MultiFile.Main.{value, count, statistics}

abbrev root : ℕ → ℕ → ℕ
root zero n = 0
root (suc k) n = let r = root k n in if leb (suc k * suc k) n then suc k else r

abbrev whole : Double ℕ
whole = record {
  zero_value = 0;
  one_value = 1;
  plus = λ a b. a + b;
  minus = λ a b. if leb b a then a - b else b - a;
  times = λ a b. a * b;
  over = λ a b. a / b;
  of_int = λ n. n;
  sqrt = λ n. root 20 n;
  less = ltb;
  equal = λ a b. a == b;
}

-- Five functions are called, and the count is six: stats_stddev counts as itself and as the
-- stats_variance that it calls.
six_calls :
    statistics whole ≡ some (value 5 ∷ value 14 ∷ value 3 ∷ value 1 ∷ value 13 ∷ count 6 ∷ [])
unfolding statistics stats_mean stats_variance stats_stddev stats_min stats_max sum_loop square_loop
    min_loop max_loop
six_calls = refl

-- A vector of length 0 has no direction, and stays.
zero_vector : vec2_norm whole (vec2 whole 0 0) ≡ vec2 whole 0 0
unfolding vec2_norm vec2_len
zero_vector = refl

whole-IsOrder : IsOrder whole.less
whole-IsOrder = record { irreflexive = λ a. ground arith; transitive = λ a b c ab bc. ground arith }

stats_min-stats_max_example :
    (least most : ℕ) × (stats_min whole (4 ∷ 7 ∷ 2 ∷ []) 0 ≡ some (least, 1))
    × (stats_max whole (4 ∷ 7 ∷ 2 ∷ []) 0 ≡ some (most, 1))
    × IsBest whole.less least (4 ∷ 7 ∷ 2 ∷ [])
    × IsBest (λ a b. whole.less b a) most (4 ∷ 7 ∷ 2 ∷ [])
stats_min-stats_max_example = stats_min-stats_max ℕ whole 4 (7 ∷ 2 ∷ []) 0 whole-IsOrder

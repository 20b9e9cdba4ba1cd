-- ===== src/MultiFile/Main.antt =====
-- `main` of exercises/19_multi_file/main.c: what is printed.
use c_programming.Prelude.{ℕ, Option, some, List, [], ◌∷◌}
use c_programming.Prelude.Ints.{◌>>=◌}
use c_programming.MultiFile.{
  Double, Vec2, stats_mean, stats_variance, stats_stddev, stats_min, stats_max, vec2, vec2_add,
  vec2_sub, vec2_scale, vec2_dot, vec2_len, vec2_norm,
}

pub data Line (D : Type 0) : Type 0 where
  vector : Vec2 D → Line D  -- vec2_print
  value : D → Line D
  count : ℕ → Line D

abbrev doubles : {D : Type 0} → Double D → List ℕ → List D
doubles d [] = []
doubles d (n ∷ l) = d.of_int n ∷ doubles d l

abbrev data_values : List ℕ
data_values = 4 ∷ 7 ∷ 13 ∷ 2 ∷ 1 ∷ 9 ∷ 6 ∷ 3 ∷ []

abbrev vectors : {D : Type 0} → Double D → List (Line D)
vectors d =
    let a = vec2 d (d.of_int 3) (d.of_int 4) in
    let b = vec2 d (d.of_int 1) (d.of_int 2) in
    vector a
    ∷ vector b
    ∷ vector (vec2_add d a b)
    ∷ vector (vec2_sub d a b)
    ∷ vector (vec2_scale d a (d.of_int 2))
    ∷ vector (vec2_norm d a)
    ∷ value (vec2_dot d a b)
    ∷ value (vec2_len d a)
    ∷ []

-- The lines on the five statistics, and stats_calls; the data and the titles are left out, and so are the
-- fixed lines at the end.
unfoldable pub statistics : {D : Type 0} → Double D → Option (List (Line D))
statistics d =
    let arr = doubles d data_values in
    let (mean, calls1) = stats_mean d arr 0 in
    let (variance, calls2) = stats_variance d arr calls1 in
    let (stddev, calls3) = stats_stddev d arr calls2 in
    stats_min d arr calls3 >>= λ (least, calls4). stats_max d arr calls4 >>= λ (most, calls5).
    some (value mean ∷ value variance ∷ value stddev ∷ value least ∷ value most ∷ count calls5 ∷ [])

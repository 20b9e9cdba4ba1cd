-- ===== src/MultiFile.antt =====
-- exercises/19_multi_file: stats.c with its variable stats_calls, and vec2.c. The operations on double
-- are a record.
pub mod Extremes
mod Main
mod Tests
use c_programming.Prelude.{
  ℕ, zero, suc, ◌+◌, ◌-◌, Bool, true, false, Option, none, some, List, [], ◌∷◌, if◌then◌else◌,
  length,
}

pub record Double (D : Type 0) : Type 0 where
  pub zero_value : D
  pub one_value : D
  pub plus : D → D → D
  pub minus : D → D → D
  pub times : D → D → D
  pub over : D → D → D
  pub of_int : ℕ → D
  pub sqrt : D → D
  pub less : D → D → Bool
  pub equal : D → D → Bool

pub record Vec2 (D : Type 0) : Type 0 where
  pub x : D
  pub y : D

module _ {D : Type 0} (d : Double D) where
  -- The functions of stats.c return the value and stats_calls as it is afterwards. `arr` holds the `n`
  -- values.
  unfoldable pub sum_loop : List D → D → D
  sum_loop [] sum = sum
  sum_loop (v ∷ arr) sum = sum_loop arr (d.plus sum v)

  unfoldable pub stats_mean : List D → ℕ → D × ℕ
  stats_mean arr stats_calls =
      (d.over (sum_loop arr d.zero_value) (d.of_int (length arr)), stats_calls + 1)

  unfoldable pub square_loop : List D → D → D → D
  square_loop [] m sum = sum
  square_loop (v ∷ arr) m sum = square_loop arr m (d.plus sum (d.times (d.minus v m) (d.minus v m)))

  unfoldable pub stats_variance : List D → ℕ → D × ℕ
  stats_variance arr stats_calls =
      let (m, counted) = stats_mean arr (stats_calls + 1) in
      (d.over (square_loop arr m d.zero_value) (d.of_int (length arr)), counted - 1)

  unfoldable pub stats_stddev : List D → ℕ → D × ℕ
  stats_stddev arr stats_calls =
      let (v, counted) = stats_variance arr (stats_calls + 1) in (d.sqrt v, counted)

  unfoldable pub min_loop : List D → D → D
  min_loop [] m = m
  min_loop (v ∷ arr) m = min_loop arr (if d.less v m then v else m)

  -- The value at index 0 is read whatever `n` is; `none` is a read outside an empty array.
  unfoldable pub stats_min : List D → ℕ → Option (D × ℕ)
  stats_min [] stats_calls = none
  stats_min (m ∷ arr) stats_calls = some (min_loop arr m, stats_calls + 1)

  unfoldable pub max_loop : List D → D → D
  max_loop [] m = m
  max_loop (v ∷ arr) m = max_loop arr (if d.less m v then v else m)

  unfoldable pub stats_max : List D → ℕ → Option (D × ℕ)
  stats_max [] stats_calls = none
  stats_max (m ∷ arr) stats_calls = some (max_loop arr m, stats_calls + 1)

  abbrev pub sq : D → D
  sq x = d.times x x

  abbrev pub vec2 : D → D → Vec2 D
  vec2 x y = record { x = x; y = y }

  unfoldable pub vec2_add : Vec2 D → Vec2 D → Vec2 D
  vec2_add a b = vec2 (d.plus a.x b.x) (d.plus a.y b.y)

  unfoldable pub vec2_sub : Vec2 D → Vec2 D → Vec2 D
  vec2_sub a b = vec2 (d.minus a.x b.x) (d.minus a.y b.y)

  unfoldable pub vec2_scale : Vec2 D → D → Vec2 D
  vec2_scale v s = vec2 (d.times v.x s) (d.times v.y s)

  unfoldable pub vec2_dot : Vec2 D → Vec2 D → D
  vec2_dot a b = d.plus (d.times a.x b.x) (d.times a.y b.y)

  unfoldable pub vec2_len : Vec2 D → D
  vec2_len v = d.sqrt (d.plus (sq v.x) (sq v.y))

  unfoldable pub vec2_norm : Vec2 D → Vec2 D
  vec2_norm v =
      let len = vec2_len v in
      if d.equal len d.zero_value
      then vec2 d.zero_value d.zero_value
      else vec2_scale v (d.over d.one_value len)

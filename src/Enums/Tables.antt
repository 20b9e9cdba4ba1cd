-- ===== src/Enums/Tables.antt =====
-- The tables of the enums: the names of the colours and the values of the directions.
use c_programming.Prelude.{
  ℕ, ◌<◌, ◌≡◌, refl, true, some, List, [], ◌∷◌, arith, ltb, ◌==◌, ◌↔◌, sym, ap, ◌∙◌, Bool-cases,
  inl, inr,
}
use c_programming.Prelude.Int.{ℤ, pos, negsuc, ◌≤ℤ◌}
use c_programming.Prelude.Texts.{Text, str_eq, eq_of_str_eq}
use c_programming.Enums.{
  Colour, colour_list, colour_name, scan_names, colour_from_name, Direction, dir_value, unsigned,
  direction_valid,
}

scan_names-name :
    (cs : List Colour) (s : Text) (c : Colour) → scan_names cs s ≡ some c → colour_name c ≡ s
unfolding scan_names
scan_names-name [] s c e = absurd (ground arith)
scan_names-name (d ∷ cs) s c e = elim (Bool-cases (str_eq (colour_name d) s)) [
  | inl hit ↦
      let same : d ≡ c = ground arith in
      ap colour_name (sym same) ∙ eq_of_str_eq (colour_name d) s hit
  | inr miss ↦ scan_names-name cs s c (rw miss at e)
]

found : (c : Colour) → colour_from_name (colour_name c) ≡ some c
unfolding colour_from_name scan_names colour_name str_eq
found Colour.red = refl
found Colour.green = refl
found Colour.blue = refl
found Colour.white = refl
found Colour.black = refl

-- `colour_from_name` finds a colour exactly at its name in the table.
pub colour_from_name-name :
    (s : Text) (c : Colour) → (colour_from_name s ≡ some c) ↔ (colour_name c ≡ s)
unfolding colour_from_name
colour_from_name-name s c =
    (scan_names-name colour_list s c, λ e. ap colour_from_name (sym e) ∙ found c)

direction_at : (n : ℕ) → n < 4 → (d : Direction) × (n ≡ dir_value d)
unfolding dir_value
direction_at n h = elim (Bool-cases (ltb n 2)) [
  | inl low ↦ elim (Bool-cases (n == 0)) [
    | inl e ↦ (Direction.north, ground arith)
    | inr e ↦ (Direction.south, ground arith)
  ]
  | inr high ↦ elim (Bool-cases (n == 2)) [
    | inl e ↦ (Direction.east, ground arith)
    | inr e ↦ (Direction.west, ground arith)
  ]
]

value_valid : (d : Direction) → direction_valid (pos (dir_value d)) ≡ true
unfolding direction_valid unsigned dir_value
value_valid d = ground arith

-- For every `int`, negative ones included, `direction_valid` accepts exactly the values of the
-- directions.
pub direction_valid-value :
    (n : ℤ)
    → negsuc 2147483647 ≤ℤ n
    → (direction_valid n ≡ true) ↔ ((d : Direction) × (n ≡ pos (dir_value d)))
unfolding direction_valid unsigned
direction_valid-value (pos n) h = (
  (λ e. let (d, same) = direction_at n (ground arith) in (d, ap pos same)),
  λ (d, same). ap direction_valid same ∙ value_valid d,
)
direction_valid-value (negsuc n) h =
    ((λ e. absurd (ground arith)), λ (d, same). ap direction_valid same ∙ value_valid d)

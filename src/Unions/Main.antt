-- ===== src/Unions/Main.antt =====
-- `main` of exercises/12_enums_and_unions/enums_unions.c: what is printed, but for the float in the union
-- and the sizes.
use Prim.Native.Nat.{bit_and, bit_or}
use c_programming.Prelude.{
  ℕ, zero, suc, ◌+◌, ◌-◌, ◌*◌, ◌/◌, ◌≡◌, refl, Bool, List, [], ◌∷◌, ◌++◌, ◌==◌, leb, ltb, map,
}
use c_programming.Prelude.Int.{pos}
use c_programming.Prelude.Texts.{Text, bytes}
use c_programming.MultiFile.{Double}
use c_programming.Unions.{
  weekday_name, http_ok, http_created, http_not_found, http_server_error, http_label, perm_read,
  perm_write, perm_execute, print_permissions, Value, num, boolean, make_str, Printed, print_value,
  Shape, circle, rect, triangle, shape_area, shape_name, byte_of,
}

data Line (D : Type 0) : Type 0 where
  day : ℕ → Text → Bool → Line D  -- whether it is at the weekend
  status : ℕ → Text → Line D
  permissions : Text → Line D
  view : List ℕ → Line D
  printed : Printed D → Line D
  area : Text → D → Line D

-- `for (Weekday d = MON; d <= SUN; d++)`, with `left` rounds to go.
abbrev week : {D : Type 0} → ℕ → ℕ → List (Line D)
week zero d = []
week (suc left) d = day d (weekday_name d) (leb 5 d) ∷ week left (d + 1)

-- `other &= ~PERM_READ`, on the bits of an `unsigned`.
abbrev revoke : ℕ → ℕ → ℕ
revoke perms perm = perms - bit_and perms perm

abbrev codes : List ℕ
codes = http_ok ∷ http_created ∷ http_not_found ∷ http_server_error ∷ []

-- `pi`, `first` and `fourth` are the literals M_PI, 3.14 and -0.5.
module _ {D : Type 0} (d : Double D) (pi first fourth : D) where
  abbrev vals : List (Value D)
  vals = num first ∷ make_str (bytes "hello") ∷ boolean (pos 1) ∷ num fourth ∷ boolean (pos 0) ∷ []

  abbrev shapes : List (Shape D)
  shapes =
      circle (d.of_int 5)
      ∷ rect (d.of_int 4) (d.of_int 6)
      ∷ triangle (d.of_int 3) (d.of_int 4) (d.of_int 5)
      ∷ []

  main : List (Line D)
  unfolding weekday_name http_label print_permissions make_str print_value shape_area shape_name
      byte_of
  main =
      let owner = bit_or (bit_or perm_read perm_write) perm_execute in
      let group = bit_or perm_read perm_execute in
      let other = perm_read in
      let u : ℕ = 1094861636 in
      week 7 0
      ++ map (λ s. status s (http_label s)) codes
      ++ permissions (print_permissions owner)
        ∷ permissions (print_permissions group)
        ∷ permissions (print_permissions other)
        ∷ permissions (print_permissions (bit_or group perm_write))
        ∷ permissions (print_permissions (revoke other perm_read))
        ∷ view (byte_of u 3 ∷ byte_of u 2 ∷ byte_of u 1 ∷ byte_of u 0 ∷ [])
        ∷ map (λ v. printed (print_value v)) vals
      ++ map (λ s. area (shape_name s) (shape_area d pi s)) shapes

abbrev tokens : Double ℕ
tokens = record {
  zero_value = 0;
  one_value = 1;
  plus = λ a b. a + b;
  minus = λ a b. a - b;
  times = λ a b. a * b;
  over = λ a b. a / b;
  of_int = λ n. n;
  sqrt = λ n. n;
  less = ltb;
  equal = λ a b. a == b;
}

-- In whole numbers, with the square of the area of the triangle.
whole_run :
    main tokens 3 314 5
    ≡ day 0 (bytes "Mon") Bool.false
      ∷ day 1 (bytes "Tue") Bool.false
      ∷ day 2 (bytes "Wed") Bool.false
      ∷ day 3 (bytes "Thu") Bool.false
      ∷ day 4 (bytes "Fri") Bool.false
      ∷ day 5 (bytes "Sat") Bool.true
      ∷ day 6 (bytes "Sun") Bool.true
      ∷ status 200 (bytes "OK")
      ∷ status 201 (bytes "Created")
      ∷ status 404 (bytes "Not Found")
      ∷ status 500 (bytes "Internal Server Error")
      ∷ permissions (bytes "+++")
      ∷ permissions (bytes "+-+")
      ∷ permissions (bytes "+--")
      ∷ permissions (bytes "+++")
      ∷ permissions (bytes "---")
      ∷ view (bytes "ABCD")
      ∷ printed (Printed.number 314)
      ∷ printed (Printed.text (bytes "hello"))
      ∷ printed (Printed.text (bytes "true"))
      ∷ printed (Printed.number 5)
      ∷ printed (Printed.text (bytes "false"))
      ∷ area (bytes "circle") 75
      ∷ area (bytes "rect") 24
      ∷ area (bytes "triangle") 36
      ∷ []
unfolding main
whole_run = refl

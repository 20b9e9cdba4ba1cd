-- ===== src/Signals.antt =====
-- exercises/23_signals/signals.c: write_int, the loops that look at the flags of the handlers, and the
-- handler that counts.
pub mod Digits
mod Tests
use c_programming.Prelude.{
  ℕ, zero, suc, ◌+◌, ◌/◌, ◌%◌, Bool, true, false, Option, none, some, List, [], ◌∷◌, ◌++◌,
  if◌then◌else◌, ltb, ◌==◌,
}
use c_programming.Prelude.Int.{ℤ, pos, negsuc}
use c_programming.Prelude.Ints.{sub_int, ◌>>=◌}
use c_programming.Prelude.Texts.{Text, bytes}

-- The loop of `write_int`, which fills the buffer from its end: the characters so far, and the places
-- before them that are left. `none` writes before the buffer.
unfoldable pub digits_loop : ℕ → ℕ → Text → Option (Text × ℕ)
digits_loop zero n buf = none
digits_loop (suc room) n buf =
    let buf' : Text = (b'0' + n % 10) ∷ buf in
    let rest = digits_loop room (n / 10) buf' in if ltb 0 (n / 10) then rest else some (buf', room)

abbrev pub with_sign : Text × ℕ → Option Text
with_sign (buf, zero) = none
with_sign (buf, suc room) = some (b'-' ∷ buf)

-- `n = -n`, which overflows for the smallest `int`.
abbrev pub negated : ℤ → Option ℕ
negated (pos n) = some n
negated (negsuc n) = none

-- What is written. The buffer has 32 places, the last for the 0.
unfoldable pub write_int : ℤ → Option Text
write_int (pos n) = digits_loop 31 n [] >>= λ (buf, _). some buf
write_int (negsuc m) =
    sub_int (pos 0) (negsuc m) >>= negated >>= λ n. digits_loop 31 n [] >>= with_sign

-- One delivery to `safe_handler`: the count afterwards, and what it writes.
unfoldable pub safe_handler : ℕ → Option (ℕ × Text)
safe_handler g_sigusr1_count = write_int (pos (g_sigusr1_count + 1)) >>= λ number.
    some (g_sigusr1_count + 1, bytes "  [safe_handler] count=" ++ number ++ 10 ∷ [])

-- `slow_operation` from iteration `i` on: whether it ends within the time, and the iterations that it
-- reports. `timed_out i` is the flag at the test of iteration `i`.
unfoldable pub slow_operation : (ℕ → Bool) → ℕ → ℕ → Bool × List ℕ
slow_operation timed_out zero i = (true, [])
slow_operation timed_out (suc left) i =
    let (done, lines) = slow_operation timed_out left (i + 1) in
    if timed_out i then (false, []) else (done, i ∷ lines)

pub data Line : Type 0 where
  shutdown_requested : ℕ → Line
  usr1_received : ℕ → Line
  working : ℕ → Line

-- The loop of `section_atomic_flag` with the two flags; the signals that it raises are handled at once.
unfoldable pub tick_loop : ℕ → ℕ → Bool → Bool → List Line
tick_loop zero tick g_shutdown g_usr1 = []
tick_loop (suc left) tick g_shutdown g_usr1 =
    let rest = tick_loop left (tick + 1) (if tick == 3 then true else g_shutdown) (tick == 2) in
    if g_shutdown
    then shutdown_requested tick ∷ []
    else if g_usr1
    then usr1_received tick ∷ working tick ∷ rest
    else working tick ∷ rest

-- ===== src/Signals/Tests.antt =====
-- Runs of the functions of exercises/23_signals/signals.c, and the theorem on write_int.
use c_programming.Prelude.{◌≡◌, refl, false, none, some, [], ◌∷◌, leb}
use c_programming.Prelude.Int.{negsuc}
use c_programming.Prelude.Ints.{sub_int}
use c_programming.Prelude.Texts.{bytes}
use c_programming.Signals.{
  digits_loop, write_int, safe_handler, slow_operation, shutdown_requested, usr1_received, working,
  tick_loop,
}

third_signal : safe_handler 2 ≡ some (3, bytes "  [safe_handler] count=3\n")
unfolding safe_handler write_int digits_loop
third_signal = refl

smallest_int : write_int (negsuc 2147483647) ≡ none
unfolding write_int sub_int
smallest_int = refl

-- The alarm goes off during the third iteration.
operation_times_out : slow_operation (λ i. leb 3 i) 5 0 ≡ (false, 0 ∷ 1 ∷ 2 ∷ [])
unfolding slow_operation
operation_times_out = refl

ticks :
    tick_loop 5 0 false false
    ≡ working 0 ∷ working 1 ∷ working 2 ∷ usr1_received 3 ∷ working 3 ∷ shutdown_requested 4 ∷ []
unfolding tick_loop
ticks = refl

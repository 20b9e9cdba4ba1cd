-- ===== src/Memory/Main/Tests.antt =====
-- `main` where every call is answered, and where none of realloc is.
use c_programming.Prelude.{◌≡◌, refl, true, some, [], ltb}
use c_programming.Memory.{vec_push, vec_create, dup_string}
use c_programming.Memory.Main.Balance.{main-balanced}
use c_programming.Memory.Main.{Answers, block_id, main, replay}

all_answered : replay (main (λ _. true)) [] ≡ some []
unfolding main replay vec_push vec_create dup_string
all_answered = refl

none_for_growth : replay (main (λ b. ltb (block_id b) 9)) [] ≡ some []
unfolding main replay vec_push vec_create dup_string
none_for_growth = refl

-- No call for the growing array is answered.
abbrev some_answers : Answers
some_answers b = ltb (block_id b) 7

main-balanced_example : replay (main some_answers) [] ≡ some []
main-balanced_example = main-balanced some_answers

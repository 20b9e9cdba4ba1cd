-- ===== src/HashTable/Tests.antt =====
-- Runs of the table and its `main`, and the theorems at concrete tables.
use c_programming.Prelude.{◌≡◌, refl, true, false, none, some, List, [], ◌∷◌, arith}
use c_programming.Prelude.Int.{pos}
use c_programming.Prelude.Texts.{bytes}
use c_programming.HashTable.{
  Key, HashMap, str_eq, hash_djb2, bucket_index, update, create, move, move_buckets, rehash, find,
  assign, unlink, prepend, put, get, delete, contains, gather, print_buckets, print,
}
use c_programming.HashTable.Table.{create-IsValid}
use c_programming.HashTable.Put.{IsLight, Written, put-Written, Erased, delete-Erased}
use c_programming.HashTable.Refine.{
  run, answers, run-answers, put_call, get_call, contains_call, delete_call, value, truth,
}
use c_programming.HashTable.Main.{
  Line, table, got, flag, grown, main, numbered, fill, verify, count_words,
}

program : Unit {0}
unfolding str_eq hash_djb2 bucket_index update create move move_buckets rehash find assign unlink
    prepend put get delete contains gather print_buckets print numbered fill verify count_words main
    answers
program = tt

-- The lines of `main` without the tables.
abbrev numbers : List Line → List Line
numbers [] = []
numbers (table m ∷ ls) = numbers ls
numbers (got v ∷ ls) = got v ∷ numbers ls
numbers (flag b ∷ ls) = flag b ∷ numbers ls
numbers (grown n c ∷ ls) = grown n c ∷ numbers ls

main_output :
    numbers main
    ≡ got (some (pos 1))
      ∷ got (some (pos 3))
      ∷ got (some (pos 5))
      ∷ got none
      ∷ got (some (pos 99))
      ∷ flag true
      ∷ flag false
      ∷ flag false
      ∷ grown 6 8
      ∷ grown 12 16
      ∷ grown 24 32
      ∷ grown 40 64
      ∷ flag true
      ∷ []
unfolding program
main_output = refl

abbrev ab : Key
ab = bytes "ab"

abbrev sample : HashMap
sample = put create ab (pos 1)

create-IsLight : IsLight create
unfolding create
create-IsLight = omega arith

put-Written_example : Written create ab (pos 1) sample
put-Written_example = put-Written create ab (pos 1) create-IsValid create-IsLight

delete-Erased_example : Erased sample ab (delete sample ab)
delete-Erased_example = delete-Erased sample ab put-Written_example.valid put-Written_example.light

run-answers_example :
    run create (put_call ab (pos 1) ∷ delete_call ab ∷ get_call ab ∷ contains_call ab ∷ [])
    ≡ truth true ∷ value none ∷ truth false ∷ []
unfolding program
run-answers_example =
    run-answers (put_call ab (pos 1) ∷ delete_call ab ∷ get_call ab ∷ contains_call ab ∷ [])

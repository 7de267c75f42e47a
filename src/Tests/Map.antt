-- ===== src/Tests/Map.antt =====
-- Runs of map/linear.c, and its theorems at a table of four slots with keys that collide.
use attica.Base.{◌%◌, ◌≡◌, Ptr, refl, true, arith, [], ◌∷◌, some, ◌==◌}
use attica.Map.Linear.Hash.{address_type, hash_djb2}
use attica.Map.Linear.Ring.{IsStraight, hash-IsStraight}
use attica.Map.Linear.Delete.Deletes.{IsClear, Deletes, delete-Deletes}
use attica.Map.Linear.Search.{IsKeyType, IsValid}
use attica.Map.Linear.Filled.{insert_internal-Inserts}
use attica.Map.Linear.Resize.{blank-IsValid}
use attica.Map.Linear.Adding.{Adds, insert-Adds}
use attica.Map.Linear.{
  KeyType, HashMap, slot, success, key_exists, blank, probe, is_success, insert_internal, insert,
  rehash, resize_internal, search, delete, clear, create, next, insert_loop, search_loop,
  delete_loop, reinsert_loop,
}

table_program : Unit {0}
unfolding address_type probe is_success insert_internal insert rehash resize_internal search delete
    clear create next insert_loop search_loop delete_loop reinsert_loop
table_program = tt

-- Keys by their remainder modulo 8, so that collisions are easy to follow.
abbrev by_eight : KeyType
by_eight = record { hash = λ k. k % 8; same = λ a b. a == b }

by_eight-IsKeyType : IsKeyType by_eight
by_eight-IsKeyType = record {
  same_refl = ground arith;
  same_symm = ground arith;
  same_trans = ground arith;
  hash-same = ground arith;
}

abbrev empty : HashMap
empty = record { entries = blank ∷ blank ∷ blank ∷ blank ∷ []; count = 0; size = 4 }

abbrev two : HashMap
two = (insert_internal by_eight 9 90 (insert_internal by_eight 1 10 empty).1).1

two_runs : two ≡ record {
  entries = blank ∷ record { key = 1; value = 10 } ∷ record { key = 9; value = 90 } ∷ blank ∷ [];
  count = 2;
  size = 4;
}
unfolding table_program
two_runs = refl

-- The entry behind the deleted one moves up.
delete_runs : delete by_eight 1 two ≡ (
  success,
  record {
    entries = blank ∷ record { key = 9; value = 90 } ∷ blank ∷ blank ∷ [];
    count = 1;
    size = 4;
  },
)
unfolding table_program
delete_runs = refl

insert_again : (insert by_eight true 9 91 two).0 ≡ key_exists
unfolding table_program
insert_again = refl

resize_runs : search by_eight 9 (resize_internal by_eight true 8 two).1 ≡ 90
unfolding table_program
resize_runs = refl

next_runs : next 4 0 two ≡ (some (record { key = 1; value = 10 }), 2)
unfolding table_program
next_runs = refl

-- "a" and "b"
hash_djb2_runs : hash_djb2 (97 ∷ 98 ∷ []) ≡ 5863208
unfolding hash_djb2
hash_djb2_runs = refl

empty-IsValid : IsValid by_eight empty
empty-IsValid = blank-IsValid by_eight by_eight-IsKeyType 4 0 (omega arith)

two-IsValid : IsValid by_eight two
two-IsValid =
    let one =
      insert_internal-Inserts by_eight by_eight-IsKeyType empty empty-IsValid 1 10 (omega arith)
        (omega arith) in
    (insert_internal-Inserts by_eight by_eight-IsKeyType _ one.valid' 9 90 (omega arith)
      (omega arith)).valid'

insert-Adds_example :
    Adds by_eight by_eight-IsKeyType true two 17 170 (insert by_eight true 17 170 two)
insert-Adds_example = insert-Adds by_eight by_eight-IsKeyType true 17 170 two two-IsValid

-- Every sequence of probes in a table of four slots runs straight.
by_eight-IsStraight : (q : Ptr) → IsStraight by_eight 4 q
by_eight-IsStraight q = hash-IsStraight by_eight 4 q (omega arith)

two-IsClear : IsClear by_eight by_eight-IsKeyType two
unfolding table_program
two-IsClear = record {
  valid = two-IsValid;
  straight = λ j h used. by_eight-IsStraight (slot two.entries j).key;
  room = 3;
  room-lt = omega arith;
  room_empty = refl;
}

delete-Deletes_example : Deletes by_eight by_eight-IsKeyType two 1 (delete by_eight 1 two)
unfolding insert_internal insert_loop
delete-Deletes_example =
    delete-Deletes by_eight by_eight-IsKeyType two 1 two-IsClear (omega arith)
      (by_eight-IsStraight 1)

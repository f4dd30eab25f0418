-- ===== src/Golang/Strings/Sorting.antt =====
-- Sorting keeps the members of a list of strings.
use dbsgomysql.Prelude.{List, Str, [], arith, contains, list_eq, nat_eq, refl, ◌∷◌, ◌≡◌}
use dbsgomysql.Golang.Strings.{insert_str, sort_strings}

contains-insert_str :
    (x s : Str) (ts : List Str) → contains x (insert_str s ts) ≡ contains x (s ∷ ts)
unfolding insert_str contains
contains-insert_str x s [] = refl
contains-insert_str x s (t ∷ ts) = ground (arith, contains-insert_str x s ts)

pub contains-sort_strings : (x : Str) (ss : List Str) → contains x (sort_strings ss) ≡ contains x ss
unfolding sort_strings contains
contains-sort_strings x [] = refl
contains-sort_strings x (s ∷ ss) =
    ground (arith, contains-insert_str x s (sort_strings ss), contains-sort_strings x ss)

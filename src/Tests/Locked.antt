-- ===== src/Tests/Locked.antt =====
-- The theorems on the locked cache, on two entries.
use nanobdd.Base.{refl, arith, List, [], ◌∷◌, Returns, ◌>>=◌}
use nanobdd.Cache.{Operator}
use nanobdd.LockedCache.{Cache, CacheEntry, create, new_entry, unlocked, lookup, insert}
use nanobdd.LockedCache.Answers.{entry, Found, insert-Found}
use nanobdd.LockedCache.Stuck.{
  Call, a_lookup, an_insert, AllInside, run_calls, IsStuckOn, lookup_hit-IsStuckOn,
}

-- 3 \ 5 is at node 7: so the next lookup of 5 \ 3 there returns 7 as well.
insert-Found_example :
    Returns
      (insert (create 2) 1 7 3 5 4)
      (Found (create 2) 1 7 3 5 Operator.diff (omega arith) refl)
insert-Found_example = insert-Found (create 2) 1 7 3 5 Operator.diff (omega arith) refl

abbrev difference : CacheEntry
difference = record { node = 7; left = 3; right = 5; op = 4; mutex = unlocked }

abbrev one_result : Cache
one_result = record (create 2) { cache = new_entry ∷ difference ∷ [] }

abbrev calls : List Call
calls = an_insert 1 9 3 6 4 ∷ a_lookup 1 3 5 Operator.diff ∷ an_insert 0 8 3 5 0 ∷ []

all_inside : AllInside 2 calls
all_inside = (omega arith, (omega arith, (omega arith, tt)))

lookup_hit-IsStuckOn_example :
    Returns
      (lookup one_result 1 3 5 Operator.diff >>= λ r. run_calls calls r.1)
      (λ after. IsStuckOn difference (entry after 1))
lookup_hit-IsStuckOn_example =
    lookup_hit-IsStuckOn one_result 1 3 5 Operator.diff calls (omega arith) (λ e. cc) refl
      all_inside

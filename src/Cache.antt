-- ===== src/Cache.antt =====
-- src/Common.h and src/LockFreeCache.h: the operators and the cache of results. The use count of an
-- entry is its lock: -1 while a writer is inside, and else the number of readers.
pub mod Laws
use nanobdd.Base.{
  ℕ, ◌+◌, ◌-◌, Bool, true, false, not, ◌&&◌, ◌||◌, ◌==◌, leb, if◌then◌else◌, List, [], ◌∷◌, length,
  set, replicate, Run, ok, fault, ◌>>=◌, at,
}
use nanobdd.Node.{Ptr, null}

pub data Operator : Type 0 where
  and or neg xor diff imp : Operator

-- The value of the enumerator.
abbrev pub code : Operator → ℕ
code and = 0
code or = 1
code neg = 2
code xor = 3
code diff = 4
code imp = 5

pub data Lock : Type 0 where
  writer : Lock
  readers : ℕ → Lock

pub record Entry : Type 0 where
  pub node : Ptr
  pub left : Ptr
  pub right : Ptr
  pub op : ℕ
  pub use_count : Lock

abbrev pub empty_entry : Entry
empty_entry = record { node = null; left = null; right = null; op = 0; use_count = readers 0 }

-- `size_` is the length of `cache_`.
abbrev pub Cache : Type 0
Cache = List Entry

abbrev pub create : ℕ → Cache
create size = replicate size empty_entry

abbrev pub is_commutative : ℕ → Bool
is_commutative op = leb op 3

abbrev pub hit : Entry → Ptr → Ptr → ℕ → Bool
hit e left right op =
    (e.op == op)
    && ((is_commutative op
          && (((e.left == left) && (e.right == right)) || ((e.left == right) && (e.right == left))))
        || (not (is_commutative op) && ((e.left == left) && (e.right == right))))

-- `useCount` is raised before the reading and lowered after it, so the entry is unchanged.
lookup_entry : Entry → Ptr → Ptr → ℕ → Lock → Ptr
lookup_entry e left right op writer = null
lookup_entry e left right op (readers n) = if hit e left right op then e.node else null

unfoldable pub lookup : Cache → ℕ → Ptr → Ptr → Operator → Run Ptr
unfolding lookup_entry
lookup cache hash left right op = do
  e ← at cache hash
  ok (if e.node == null then null else lookup_entry e left right (code op) e.use_count)

-- Only a free entry is written; otherwise the result is not kept.
insert_entry : Entry → Ptr → Ptr → Ptr → ℕ → Lock → Entry
insert_entry e node left right op writer = e
insert_entry e node left right op (readers n) =
    if n == 0
    then record { node = node; left = left; right = right; op = op; use_count = readers 0 }
    else e

unfoldable pub insert : Cache → ℕ → Ptr → Ptr → Ptr → Operator → Run Cache
unfolding insert_entry
insert cache hash node left right op = do
  e ← at cache hash
  ok (set cache hash (insert_entry e node left right (code op) e.use_count))

-- `op` is left as it is
unfoldable pub invalidate_all : Cache → Cache
invalidate_all [] = []
invalidate_all (e ∷ es) =
    record e { node = null; left = null; right = null; use_count = readers 0 } ∷ invalidate_all es

-- ===== src/LockedCache.antt =====
-- src/Cache.h and src/Cache.cpp: the cache with a lock in every entry. A `std::shared_mutex` is here
-- its owners; it counts its readers, whichever thread they are, and a try fails only if it must.
pub mod Stuck
pub mod Answers
use nanobdd.Base.{ℕ, zero, suc, List, [], ◌∷◌, replicate, set, at, Run, ok, ◌>>=◌}
use nanobdd.Base.{Bool, true, false, not, ◌&&◌, ◌||◌, ◌==◌, leb, if◌then◌else◌, Option, none, some}
use nanobdd.Node.{Ptr, null}
use nanobdd.Cache.{Operator, code}

pub data SharedMutex : Type 0 where
  exclusive : SharedMutex
  shared : ℕ → SharedMutex

abbrev pub unlocked : SharedMutex
unlocked = shared 0

abbrev pub try_lock_shared : SharedMutex → Option SharedMutex
try_lock_shared exclusive = none
try_lock_shared (shared n) = some (shared (suc n))

-- only of a mutex that a reader holds
abbrev pub unlock_shared : SharedMutex → SharedMutex
unlock_shared exclusive = exclusive
unlock_shared (shared zero) = shared zero
unlock_shared (shared (suc n)) = shared n

abbrev pub try_lock : SharedMutex → Option SharedMutex
try_lock exclusive = none
try_lock (shared zero) = some exclusive
try_lock (shared (suc n)) = none

abbrev pub unlock : SharedMutex → SharedMutex
unlock exclusive = unlocked
unlock (shared n) = shared n

pub record CacheEntry : Type 0 where
  pub node : Ptr
  pub left : Ptr
  pub right : Ptr
  pub op : ℕ
  pub mutex : SharedMutex

-- What the value initialisation of the vectors and the constructor's loops make of an entry.
abbrev pub new_entry : CacheEntry
new_entry = record { node = null; left = null; right = null; op = 0; mutex = unlocked }

pub record Cache : Type 0 where
  pub size : ℕ
  pub cache : List CacheEntry
  pub and_cache : List CacheEntry
  pub or_cache : List CacheEntry
  pub not_cache : List CacheEntry
  pub diff_cache : List CacheEntry

abbrev pub create : ℕ → Cache
create size = record {
  size = size;
  cache = replicate size new_entry;
  and_cache = [];
  or_cache = [];
  not_cache = [];
  diff_cache = [];
}

-- the constructor with the flag `opCache`, which it does not read
abbrev pub create_op : ℕ → Bool → Cache
create_op size op_cache = record {
  size = size;
  cache = replicate size new_entry;
  and_cache = replicate size new_entry;
  or_cache = replicate size new_entry;
  not_cache = replicate size new_entry;
  diff_cache = replicate size new_entry;
}

abbrev pub get_cache : Cache → ℕ → List CacheEntry
get_cache c op = c.cache

abbrev pub is_commutative_operator : Operator → Bool
is_commutative_operator op = leb (code op) 3

-- The two tests of `lookup`, one after the other.
abbrev pub matches : CacheEntry → Ptr → Ptr → Operator → Bool
matches e left right op =
    (not (is_commutative_operator op)
      && (e.op == code op)
      && (e.left == left)
      && (e.right == right))
    || ((e.op == code op)
        && (((e.left == left) && (e.right == right)) || ((e.left == right) && (e.right == left))))

-- On a match `lookup` returns before `unlock_shared`.
unfoldable pub lookup_entry :
    CacheEntry → Ptr → Ptr → Operator → Option SharedMutex → Ptr × CacheEntry
lookup_entry e left right op none = (null, e)
lookup_entry e left right op (some locked) =
    if matches e left right op
    then (e.node, record e { mutex = locked })
    else (null, record e { mutex = unlock_shared locked })

unfoldable pub lookup : Cache → ℕ → Ptr → Ptr → Operator → Run (Ptr × Cache)
unfolding lookup_entry
lookup c hash left right op = at (get_cache c (code op)) hash >>= λ e.
    let (out, after) = lookup_entry e left right op (try_lock_shared e.mutex) in
    ok (out, record c { cache = set (get_cache c (code op)) hash after })

unfoldable pub insert_entry : CacheEntry → Ptr → Ptr → Ptr → ℕ → Option SharedMutex → CacheEntry
insert_entry e node left right op none = e
insert_entry e node left right op (some locked) = record {
  node = node;
  left = left;
  right = right;
  op = op;
  mutex = unlocked;
}

unfoldable pub insert : Cache → ℕ → Ptr → Ptr → Ptr → ℕ → Run Cache
unfolding insert_entry
insert c hash node left right op = at (get_cache c op) hash >>= λ e. ok (record c {
  cache = set (get_cache c op) hash (insert_entry e node left right op (try_lock e.mutex));
})

-- ===== src/LockedCache/Answers.antt =====
-- src/Cache.cpp: an insertion and the lookups after it.
use nanobdd.Base.{ℕ, ◌<◌, ◌≡◌, refl, arith, length, get_or, set, at-get_or, ok, Returns, true}
use nanobdd.Base.{length-set, get_or-set, ==_refl}
use nanobdd.Node.{Ptr}
use nanobdd.Cache.{Operator, code}
use nanobdd.LockedCache.{
  Cache, CacheEntry, new_entry, unlocked, lookup, lookup_entry, insert, insert_entry, matches,
  try_lock_shared,
}

abbrev pub entry : Cache → ℕ → CacheEntry
entry c hash = get_or c.cache hash new_entry

pub lookup-eq :
    (c : Cache) (hash : ℕ) (left right : Ptr) (op : Operator)
    → hash < length c.cache
    → lookup c hash left right op ≡ (
        let r = lookup_entry (entry c hash) left right op (try_lock_shared (entry c hash).mutex) in
        ok (r.0, record c { cache = set c.cache hash r.1 }))
unfolding lookup
lookup-eq c hash left right op inside = rw (at-get_or c.cache hash new_entry inside) refl

module _ (c : Cache) (hash : ℕ) (node left right : Ptr) (op : Operator)
    (inside : hash < length c.cache) (free : (entry c hash).mutex ≡ unlocked) where
  filled : CacheEntry
  filled = record { node = node; left = left; right = right; op = code op; mutex = unlocked }

  put : Cache
  put = record c { cache = set c.cache hash filled }

  insert-eq : insert c hash node left right (code op) ≡ ok put
  unfolding insert insert_entry put filled
  insert-eq = rw (at-get_or c.cache hash new_entry inside, free) refl

  -- either order of the operands finds it
  pub Found : Cache → Type 0
  Found c1 =
      Returns (lookup c1 hash left right op) (λ r. r.0 ≡ node)
      × Returns (lookup c1 hash right left op) (λ r. r.0 ≡ node)

  entry-put : entry put hash ≡ filled
  unfolding put
  entry-put = rw (get_or-set c.cache hash hash filled new_entry inside, ==_refl hash) refl

  lookup-put :
      (a b : Ptr)
      → matches filled a b op ≡ true
      → Returns (lookup put hash a b op) (λ r. r.0 ≡ node)
  unfolding lookup_entry filled
  lookup-put a b m =
      let reaches : hash < length put.cache =
        unfold put in omega (arith, length-set c.cache hash filled, inside) in
      rw (lookup-eq put hash a b op reaches, entry-put, m) (_, refl, refl)

  -- An insertion into an unlocked entry is found by the next lookup with the same operator and the
  -- operands in either order. That holds for every operator, also for diff and imp, whose operands
  -- cannot be exchanged.
  pub insert-Found : Returns (insert c hash node left right (code op)) Found
  unfolding Found filled
  insert-Found =
      (put, insert-eq, (lookup-put left right (ground arith), lookup-put right left (ground arith)))

-- ===== src/LockedCache/Stuck.antt =====
-- src/Cache.cpp: an entry that a lookup has found keeps a reader, and is never written again.
use nanobdd.Base.{
  ℕ, suc, ◌<◌, ◌≡◌, ◌≢◌, refl, arith, length, set, at-get_or, ok, Returns, Run, ◌>>=◌, Bool-cases,
  true, List, [], ◌∷◌,
}
use nanobdd.Base.{length-set, get_or-set, ==_refl, ==→eq, ◌∙◌, Returns_map, ◌==◌, inl, inr}
use nanobdd.Node.{Ptr}
use nanobdd.Cache.{Operator}
use nanobdd.LockedCache.{
  Cache, CacheEntry, SharedMutex, exclusive, shared, new_entry, lookup, lookup_entry, insert,
  insert_entry, matches, try_lock_shared, try_lock,
}
use nanobdd.LockedCache.Answers.{entry, lookup-eq}

-- a call of the cache, with its arguments
pub data Call : Type 0 where
  a_lookup : (hash : ℕ) (left right : Ptr) (op : Operator) → Call
  an_insert : (hash : ℕ) (node left right : Ptr) (op : ℕ) → Call

-- the index of a call, which the table takes below `size()`
abbrev pub index : Call → ℕ
index (a_lookup hash left right op) = hash
index (an_insert hash node left right op) = hash

unfoldable pub run_call : Call → Cache → Run Cache
run_call (a_lookup hash left right op) c = lookup c hash left right op >>= λ r. ok r.1
run_call (an_insert hash node left right op) c = insert c hash node left right op

unfoldable pub run_calls : List Call → Cache → Run Cache
run_calls [] c = ok c
run_calls (call ∷ calls) c = run_call call c >>= λ c1. run_calls calls c1

abbrev pub AllInside : ℕ → List Call → Type 0
AllInside n [] = Unit
AllInside n (call ∷ calls) = index call < n × AllInside n calls

-- The entry has the result `e`, and a reader.
pub record IsStuckOn (e f : CacheEntry) : Type 0 where
  pub node : f.node ≡ e.node
  pub left : f.left ≡ e.left
  pub right : f.right ≡ e.right
  pub op : f.op ≡ e.op
  pub readers : ℕ
  pub held : f.mutex ≡ shared (suc readers)

-- the same with another number of readers
readers-IsStuckOn :
    (e f : CacheEntry) (n : ℕ) → IsStuckOn e f → IsStuckOn e (record f { mutex = shared (suc n) })
readers-IsStuckOn e f n s = record {
  node = s.node;
  left = s.left;
  right = s.right;
  op = s.op;
  readers = n;
  held = refl;
}

lookup_entry-IsStuckOn :
    (e f : CacheEntry) (left right : Ptr) (op : Operator)
    → IsStuckOn e f
    → IsStuckOn e (lookup_entry f left right op (try_lock_shared f.mutex)).1
unfolding lookup_entry
lookup_entry-IsStuckOn e f left right op s =
    rw s.held (elim (Bool-cases (matches f left right op)) [
      | inl hit ↦ rw hit (readers-IsStuckOn e f (suc s.readers) s)
      | inr miss ↦ rw miss (readers-IsStuckOn e f s.readers s)
    ])

insert_entry-IsStuckOn :
    (e f : CacheEntry) (node left right : Ptr) (op : ℕ)
    → IsStuckOn e f
    → IsStuckOn e (insert_entry f node left right op (try_lock f.mutex))
unfolding insert_entry
insert_entry-IsStuckOn e f node left right op s = rw s.held (readers-IsStuckOn e f s.readers s)

hit-IsStuckOn :
    (e : CacheEntry) (left right : Ptr) (op : Operator) (m : SharedMutex)
    → matches e left right op ≡ true
    → m ≢ exclusive
    → IsStuckOn e (lookup_entry e left right op (try_lock_shared m)).1
unfolding lookup_entry
hit-IsStuckOn e left right op exclusive hit free = absurd (free refl)
hit-IsStuckOn e left right op (shared n) hit free =
    rw hit (record { node = refl; left = refl; right = refl; op = refl; readers = n; held = refl })

-- The cache has `n` entries, and the one at `hash` has the result `e` and a reader.
record IsStuck (n hash : ℕ) (e : CacheEntry) (c : Cache) : Type 0 where
  length_eq : length c.cache ≡ n
  stuck : IsStuckOn e (entry c hash)

-- a write at any index, which leaves the entry as it is or writes it well
set-IsStuck :
    (n hash i : ℕ) (e : CacheEntry) (f : CacheEntry) (c : Cache)
    → i < n
    → IsStuck n hash e c
    → (IsStuckOn e (entry c i) → IsStuckOn e f)
    → IsStuck n hash e (record c { cache = set c.cache i f })
set-IsStuck n hash i e f c inside s step = record {
  length_eq = length-set c.cache i f ∙ s.length_eq;
  stuck =
      rw (get_or-set c.cache i hash f new_entry (omega (arith, s.length_eq)))
        (elim (Bool-cases (i == hash)) [
          | inl same ↦ rw same (step (rw (==→eq i hash same) s.stuck))
          | inr other ↦ rw other s.stuck
        ]);
}

run_call-IsStuck :
    (n hash : ℕ) (e : CacheEntry) (call : Call) (c : Cache)
    → index call < n
    → IsStuck n hash e c
    → Returns (run_call call c) (IsStuck n hash e)
unfolding run_call insert
run_call-IsStuck n hash e (a_lookup i left right op) c inside s =
    rw (lookup-eq c i left right op (omega (arith, s.length_eq))) (
      _,
      refl,
      set-IsStuck n hash i e _ c inside s (lookup_entry-IsStuckOn e (entry c i) left right op),
    )
run_call-IsStuck n hash e (an_insert i node left right op) c inside s =
    rw (at-get_or c.cache i new_entry (omega (arith, s.length_eq))) (
      _,
      refl,
      set-IsStuck n hash i e _ c inside s (insert_entry-IsStuckOn e (entry c i) node left right op),
    )

run_calls-IsStuck :
    (n hash : ℕ) (e : CacheEntry) (calls : List Call) (c : Cache)
    → AllInside n calls
    → IsStuck n hash e c
    → Returns (run_calls calls c) (IsStuck n hash e)
unfolding run_calls
run_calls-IsStuck n hash e [] c inside s = (c, refl, s)
run_calls-IsStuck n hash e (call ∷ calls) c (here, later) s =
    let (c1, run, s1) = run_call-IsStuck n hash e call c here s in
    rw run (run_calls-IsStuck n hash e calls c1 later s1)

-- After a lookup that finds its result in an entry that nobody writes, every sequence of lookups and
-- insertions within the cache ends, and none changes the entry's result: a reader stays on it.
pub lookup_hit-IsStuckOn :
    (c : Cache) (hash : ℕ) (left right : Ptr) (op : Operator) (calls : List Call)
    → hash < length c.cache
    → (entry c hash).mutex ≢ exclusive
    → matches (entry c hash) left right op ≡ true
    → AllInside (length c.cache) calls
    → Returns
        (lookup c hash left right op >>= λ r. run_calls calls r.1)
        (λ after. IsStuckOn (entry c hash) (entry after hash))
lookup_hit-IsStuckOn c hash left right op calls inside free hit all =
    rw (lookup-eq c hash left right op inside) (
      Returns_map _ (λ after s. s.stuck)
        (run_calls-IsStuck (length c.cache) hash (entry c hash) calls _ all (record {
          length_eq = length-set c.cache hash _;
          stuck =
              rw (get_or-set c.cache hash hash _ new_entry inside, ==_refl hash)
                (hit-IsStuckOn (entry c hash) left right op (entry c hash).mutex hit free);
        })))

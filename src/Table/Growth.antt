-- ===== src/Table/Growth.antt =====
-- The growth of the bucket vector: `shouldGrowBucketsLocked`, `growBucketsLocked`,
-- `maybeGrowBuckets`. The load factor is compared in exact arithmetic, `node_count / table_size > 4`;
-- the code's `double` division decides alike below 2 ^ 50 buckets.
use nanobdd.Base.{
  ℕ, ◌+◌, ◌*◌, ◌%◌, ◌^◌, Bool, false, ◌==◌, ltb, leb, if◌then◌else◌, List, [], ◌∷◌, replicate, set,
  Run, ok, ◌>>=◌, at,
}
use nanobdd.Node.{Ptr, Heap}
use nanobdd.Bucket.{Bucket, extract_all_nodes, insert_existing}
use nanobdd.Platform.{Platform}
use nanobdd.Table.State.{NodeTable, hash}

unfoldable pub should_grow_buckets : NodeTable → Bool
should_grow_buckets t = if t.table_size == 0 then false else ltb (4 * t.table_size) t.node_count

unfoldable pub extract_all : List Bucket → List Ptr → List Ptr
extract_all [] nodes = nodes
extract_all (b ∷ bs) nodes = extract_all bs (extract_all_nodes b nodes).0

-- The last loop: each node goes to the bucket of its hash.
unfoldable pub rehash : ⦃env : Platform⦄ → Heap → ℕ → List Ptr → List Bucket → Run (List Bucket)
rehash h size [] bs = ok bs
rehash h size (p ∷ ps) bs = do
  idx ← hash size (h p).level (h p).low (h p).high
  bucket ← at bs idx
  rehash h size ps (set bs idx (insert_existing bucket p))

unfoldable pub grow_buckets : ⦃env : Platform⦄ → NodeTable → ℕ → Run NodeTable
unfolding extract_all
grow_buckets t new_size = if leb new_size t.table_size then ok t else (do
  bs ← rehash t.heap new_size (extract_all t.buckets []) (replicate new_size [])
  ok (record t { buckets = bs; table_size = new_size }))

-- `static_cast<unsigned int>(tableSize_ * 2 + 1)`, and the next prime
unfoldable pub grown_size : ⦃env : Platform⦄ → NodeTable → ℕ
grown_size ⦃env⦄ t = env.prime_gte ((t.table_size * 2 + 1) % 2 ^ 32)

unfoldable pub maybe_grow_buckets : ⦃env : Platform⦄ → NodeTable → Run NodeTable
maybe_grow_buckets t = if should_grow_buckets t then grow_buckets t (grown_size t) else ok t

-- ===== src/Table/Layout.antt =====
-- The layout of a node table: every node once, in the bucket of its hash; no two nodes with the same
-- fields; and cells that are not in use in no bucket.
pub mod Rehash
pub mod Insert
use nanobdd.Base.{
  ℕ, ◌+◌, ◌≤◌, ◌<◌, ◌≡◌, ◌≢◌, ◌==◌, if◌then◌else◌, List, [], count, total, length, get_or, arith,
  subst, refl, ◌∙◌,
}
use nanobdd.Node.{Ptr, null, Heap}
use nanobdd.Allocator.FreeList.{IsAllocator, IsIdle, IsHoused}
use nanobdd.Cache.{Cache}
use nanobdd.Platform.{Platform}
use nanobdd.Table.State.{NodeTable, home}

abbrev pub bucket_at : NodeTable → ℕ → List Ptr
bucket_at t i = get_or t.buckets i []

module _ ⦃env : Platform⦄ where
  abbrev pub home_of : NodeTable → Ptr → ℕ
  home_of t p = home t.table_size (t.heap p).level (t.heap p).low (t.heap p).high

  -- The node stands in the table.
  abbrev pub Stored : NodeTable → Ptr → Type 0
  Stored t p = 0 < count p (bucket_at t (home_of t p))

  -- `free` lists the cells of the free list.
  pub record IsLaid (t : NodeTable) (free : List Ptr) : Type 0 where
    pub sized : 0 < t.table_size
    pub width : length t.buckets ≡ t.table_size
    pub placed : (p : Ptr) (i : ℕ) → count p (bucket_at t i) ≤ (if i == home_of t p then 1 else 0)
    pub no_null : (i : ℕ) → count null (bucket_at t i) ≡ 0
    pub unique :
        (p q : Ptr)
        → Stored t p
        → Stored t q
        → (t.heap p).level ≡ (t.heap q).level
        → (t.heap p).low ≡ (t.heap q).low
        → (t.heap p).high ≡ (t.heap q).high
        → p ≡ q
    pub counted : t.node_count ≡ total t.buckets
    pub allocates : IsAllocator t.heap t.allocator free
    pub unused : (p : Ptr) (i : ℕ) → IsIdle t.allocator free p → count p (bucket_at t i) ≡ 0
    pub housed : (p : Ptr) (i : ℕ) → 0 < count p (bucket_at t i) → IsHoused t.allocator p

  -- What stands in any bucket is stored.
  pub Stored-of_bucket :
      (t : NodeTable) (free : List Ptr) (p : Ptr) (i : ℕ)
      → IsLaid t free
      → 0 < count p (bucket_at t i)
      → (i ≡ home_of t p) × Stored t p
  Stored-of_bucket t free p i v c =
      let e : i ≡ home_of t p = ground (arith, v.placed p i) in
      (e, subst (λ k. 0 < count p (bucket_at t k)) e c)

  pub Stored-ne_null :
      (t : NodeTable) (free : List Ptr) (p : Ptr) → IsLaid t free → Stored t p → p ≢ null
  Stored-ne_null t free p v s e = absurd (
      omega
        (arith, v.no_null (home_of t p), subst (λ q. 0 < count q (bucket_at t (home_of t p))) e s))

  -- Nothing that the first table holds is lost or changed in the second.
  pub record Extends (t t' : NodeTable) : Type 0 where
    pub keeps : (p : Ptr) → Stored t p → Stored t' p
    pub same : (p : Ptr) → Stored t p → t'.heap p ≡ t.heap p
    pub false_same : t'.false_node ≡ t.false_node
    pub true_same : t'.true_node ≡ t.true_node

  pub Extends-refl : (t : NodeTable) → Extends t t
  Extends-refl t = record {
    keeps = λ p s. s;
    same = λ p s. refl;
    false_same = refl;
    true_same = refl;
  }

  pub Extends-trans : (t u w : NodeTable) → Extends t u → Extends u w → Extends t w
  Extends-trans t u w a b = record {
    keeps = λ p s. b.keeps p (a.keeps p s);
    same = λ p s. b.same p (a.keeps p s) ∙ a.same p s;
    false_same = b.false_same ∙ a.false_same;
    true_same = b.true_same ∙ a.true_same;
  }

  -- The layout is not about the terminals, the lists of variables and the cache.
  pub IsLaid-other :
      (t : NodeTable) (free : List Ptr) (f g : Ptr) (vars nvars : List Ptr) (cache : Cache)
      → IsLaid t free
      → IsLaid
          (record t { false_node = f; true_node = g; vars = vars; nvars = nvars; cache = cache })
          free
  IsLaid-other t free f g vars nvars cache v = record {
    sized = v.sized;
    width = v.width;
    placed = v.placed;
    no_null = v.no_null;
    unique = v.unique;
    counted = v.counted;
    allocates = v.allocates;
    unused = v.unused;
    housed = v.housed;
  }

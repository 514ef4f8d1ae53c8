-- ===== src/Concurrent/Creation.antt =====
-- `NodeTable::getOrCreateNode` (src/NodeTable.cpp), `Bucket::find` and `insertIfAbsent` (src/Bucket.h),
-- and `NodeAllocator::allocate` and `free` (src/NodeAllocator.cpp) between threads: each look at a
-- node, each access to the free list and to the links is a step of its own. A `std::shared_mutex` is
-- the thread that holds it alone and the threads that share it. Every thread holds the table's lock
-- shared, so neither maintenance nor the growth of the buckets runs, and the slab stays the same; a
-- thread that gets no cell begins again. Marks and reference counts are left out.
--
-- `popFree` compares pointers only: its exchange succeeds also if the head has been taken and freed in
-- between, and then puts a link that is no longer right at the head. `HasNoStalePop` says of a run that
-- this did not happen. `taken` is not in the code: the cells in use.
pub mod Invariant
pub mod Moves
pub mod Push
pub mod Cells
pub mod Steps
pub mod Safety
pub mod Count
use nanobdd.Base.{
  ℕ, ◌+◌, ◌≤◌, ◌<◌, ◌≡◌, ◌≢◌, ◌==◌, if◌then◌else◌, Bool, true, false, Option, none, some, List, [],
  ◌∷◌, ◌++◌, length, get_or,
}
use nanobdd.Node.{Ptr, null}
use nanobdd.Platform.{Platform}
use nanobdd.Table.State.{home}
use nanobdd.Concurrent.Threads.{update}

pub record Triple : Type 0 where
  pub level : ℕ
  pub low : Ptr
  pub high : Ptr

pub record Shared : Type 0 where
  pub nodes : ℕ → List Ptr
  pub writer : ℕ → Option ℕ
  pub reading : ℕ → ℕ → Bool
  pub triple : Ptr → Triple
  pub taken : Ptr → Bool
  pub link : Ptr → Ptr  -- `nextFree`
  pub head : Ptr  -- `freeList_`
  pub next : Ptr  -- the next cell of the slab
  pub limit : Ptr  -- the end of the slab
  pub node_count : ℕ

-- Where a thread stands; `c` is the candidate.
pub data Pc : Type 0 where
  idle : Pc
  finding : (key : Triple) → Pc  -- before the lock of `find`
  searching : (key : Triple) (k : ℕ) → Pc
  allocating : (key : Triple) → Pc  -- before the load of `freeList_`
  popping : (key : Triple) (p : Ptr) → Pc  -- before the read of its link
  linking : (key : Triple) (p n : Ptr) → Pc  -- before the compare-exchange
  taking : (key : Triple) (p : Ptr) → Pc  -- before `head->nextFree = nullptr`
  slabbing : (key : Triple) → Pc  -- before `allocateFromSlab`
  filling : (key : Triple) (p : Ptr) → Pc  -- before the stores of the level and the children
  filled : (key : Triple) (p : Ptr) → Pc  -- before the last store of `resetNode`
  inserting : (key : Triple) (c : Ptr) → Pc  -- before the lock of `insertIfAbsent`
  comparing : (key : Triple) (c : Ptr) (k : ℕ) → Pc
  losing : (key : Triple) (c p : Ptr) → Pc  -- before `free(candidate)`
  freeing : (key : Triple) (c p : Ptr) → Pc  -- before the load of `pushFree`
  pushing : (key : Triple) (c p top : Ptr) → Pc  -- before `node->nextFree = head`
  joining : (key : Triple) (c p top : Ptr) → Pc  -- before the compare-exchange
  counting : (key : Triple) (c : Ptr) → Pc  -- before `fetch_add`
  done : (key : Triple) (p : Ptr) → Pc

abbrev pub set_reading : Shared → ℕ → ℕ → Bool → Shared
set_reading m b i v = record m { reading = update m.reading b (update (m.reading b) i v) }

abbrev pub set_writer : Shared → ℕ → Option ℕ → Shared
set_writer m b w = record m { writer = update m.writer b w }

abbrev pub set_triple : Shared → Ptr → Triple → Shared
set_triple m p key = record m { triple = update m.triple p key }

abbrev pub set_link : Shared → Ptr → Ptr → Shared
set_link m p n = record m { link = update m.link p n }

-- The exchange of `popFree`
abbrev pub popped : Shared → Ptr → Ptr → Shared
popped m p n = record m { head = n; taken = update m.taken p true }

-- The exchange of `allocateFromSlab`
abbrev pub sliced : Shared → Shared
sliced m = record m { next = m.next + 1; taken = update m.taken m.next true }

-- The stores of `free`
abbrev pub cleared : Shared → Ptr → Shared
cleared m c = set_triple m c (record (m.triple c) { low = null; high = null })

-- The exchange of `pushFree`
abbrev pub given_back : Shared → Ptr → Shared
given_back m c = record m { head = c; taken = update m.taken c false }

-- `push_back` and the end of the lock
abbrev pub pushed : Shared → ℕ → Ptr → Shared
pushed m b c = record m {
  nodes = update m.nodes b (m.nodes b ++ c ∷ []);
  writer = update m.writer b none;
}

pub record System : Type 0 where
  pub shared : Shared
  pub pc : ℕ → Pc

module _ ⦃env : Platform⦄ (table_size : ℕ) where
  abbrev pub home_of : Triple → ℕ
  home_of key = home table_size key.level key.low key.high

  -- The node that the loop looks at.
  abbrev pub entry : Shared → Triple → ℕ → Ptr
  entry m key k = get_or (m.nodes (home_of key)) k null

  -- The steps of the thread `i`.
  pub data Move (i : ℕ) (m : Shared) : Pc → Shared → Pc → Type 0 where
    begin : (key : Triple) → Move i m idle m (finding key)
    lock_shared :
        {key : Triple}
        → m.writer (home_of key) ≡ none
        → Move i m (finding key) (set_reading m (home_of key) i true) (searching key 0)
    hit :
        {key : Triple} {n : ℕ}
        → n < length (m.nodes (home_of key))
        → m.triple (entry m key n) ≡ key
        → Move i m
            (searching key n)
            (set_reading m (home_of key) i false)
            (done key (entry m key n))
    miss :
        {key : Triple} {n : ℕ}
        → n < length (m.nodes (home_of key))
        → m.triple (entry m key n) ≢ key
        → Move i m (searching key n) m (searching key (n + 1))
    not_found :
        {key : Triple} {n : ℕ}
        → n ≡ length (m.nodes (home_of key))
        → Move i m (searching key n) (set_reading m (home_of key) i false) (allocating key)
    load_head : {key : Triple} → m.head ≢ null → Move i m (allocating key) m (popping key m.head)
    none_free : {key : Triple} → m.head ≡ null → Move i m (allocating key) m (slabbing key)
    read_link : {key : Triple} {p : Ptr} → Move i m (popping key p) m (linking key p (m.link p))
    pop :
        {key : Triple} {p n : Ptr}
        → m.head ≡ p
        → Move i m (linking key p n) (popped m p n) (taking key p)
    pop_again : {key : Triple} {p n : Ptr} → Move i m (linking key p n) m (allocating key)
    unlink : {key : Triple} {p : Ptr} → Move i m (taking key p) (set_link m p null) (filling key p)
    slice :
        {key : Triple} → m.next < m.limit → Move i m (slabbing key) (sliced m) (filling key m.next)
    no_cell : {key : Triple} → m.limit ≤ m.next → Move i m (slabbing key) m (finding key)
    fill : {key : Triple} {p : Ptr} → Move i m (filling key p) (set_triple m p key) (filled key p)
    unlink_again :
        {key : Triple} {p : Ptr} → Move i m (filled key p) (set_link m p null) (inserting key p)
    lock :
        {key : Triple} {c : Ptr}
        → m.writer (home_of key) ≡ none
        → ((j : ℕ) → m.reading (home_of key) j ≡ false)
        → Move i m (inserting key c) (set_writer m (home_of key) (some i)) (comparing key c 0)
    lose :
        {key : Triple} {c : Ptr} {n : ℕ}
        → n < length (m.nodes (home_of key))
        → m.triple (entry m key n) ≡ key
        → Move i m
            (comparing key c n)
            (set_writer m (home_of key) none)
            (losing key c (entry m key n))
    differ :
        {key : Triple} {c : Ptr} {n : ℕ}
        → n < length (m.nodes (home_of key))
        → m.triple (entry m key n) ≢ key
        → Move i m (comparing key c n) m (comparing key c (n + 1))
    push :
        {key : Triple} {c : Ptr} {n : ℕ}
        → n ≡ length (m.nodes (home_of key))
        → Move i m (comparing key c n) (pushed m (home_of key) c) (counting key c)
    free : {key : Triple} {c p : Ptr} → Move i m (losing key c p) (cleared m c) (freeing key c p)
    load_top : {key : Triple} {c p : Ptr} → Move i m (freeing key c p) m (pushing key c p m.head)
    join :
        {key : Triple} {c p top : Ptr}
        → Move i m (pushing key c p top) (set_link m c top) (joining key c p top)
    put :
        {key : Triple} {c p top : Ptr}
        → m.head ≡ top
        → Move i m (joining key c p top) (given_back m c) (done key p)
    put_again : {key : Triple} {c p top : Ptr} → Move i m (joining key c p top) m (freeing key c p)
    count :
        {key : Triple} {c : Ptr}
        → Move i m (counting key c) (record m { node_count = m.node_count + 1 }) (done key c)
    return : {key : Triple} {p : Ptr} → Move i m (done key p) m idle

  -- One of `threads` threads moves.
  pub data Step (threads : ℕ) (s : System) : System → Type 0 where
    pick :
        (i : ℕ) {m : Shared} {p : Pc}
        → i < threads
        → Move i s.shared (s.pc i) m p
        → Step threads s (record { shared = m; pc = update s.pc i p })

  -- Empty buckets and free list, no lock held, and a slab of the cells from `first` up to `last`.
  abbrev pub empty : (Ptr → Triple) → Ptr → Ptr → System
  empty memory first last = record {
    shared = record {
      nodes = λ b. [];
      writer = λ b. none;
      reading = λ b i. false;
      triple = memory;
      taken = λ p. false;
      link = λ p. null;
      head = null;
      next = first;
      limit = last;
      node_count = 0;
    };
    pc = λ i. idle;
  }

  pub data Reach (threads : ℕ) (memory : Ptr → Triple) : System → Type 0 where
    start : (first last : Ptr) → null < first → Reach threads memory (empty memory first last)
    later : {s t : System} → Reach threads memory s → Step threads s t → Reach threads memory t

  -- An exchange of `popFree` that succeeds finds the link as the thread has read it.
  abbrev pub IsFresh :
      {i : ℕ} {m : Shared} {q : Pc} {m' : Shared} {p : Pc} → Move i m q m' p → Type 0
  IsFresh {m = m} (pop {p = p} {n} e) = m.link p ≡ n
  IsFresh _ = Unit

  -- In the whole run, no exchange of `popFree` succeeds with a link that has changed.
  abbrev pub HasNoStalePop :
      {threads : ℕ} {memory : Ptr → Triple} {s : System} → Reach threads memory s → Type 0
  HasNoStalePop (start first last pos) = Unit
  HasNoStalePop (later r (pick i lt mv)) = HasNoStalePop r × IsFresh mv

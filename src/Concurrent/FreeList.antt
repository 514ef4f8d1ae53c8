-- ===== src/Concurrent/FreeList.antt =====
-- `popFree` and `pushFree` of src/NodeAllocator.cpp between threads: the free list through
-- `nextFree`, and its head, which is exchanged atomically. `handed` is not in the code: the cells
-- that calls of `popFree` have taken, the latest first.
pub mod PopOnce
use nanobdd.Base.{ℕ, ◌≡◌, ◌≢◌, ◌==◌, if◌then◌else◌, List, [], ◌∷◌}
use nanobdd.Node.{Ptr, null, Heap, write}
use nanobdd.Concurrent.Threads.{update}

pub record Shared : Type 0 where
  pub heap : Heap
  pub free_list : Ptr
  pub handed : List Ptr

-- Where a thread stands in `popFree` (to `taken`) or `pushFree`.
pub data Pc : Type 0 where
  idle : Pc
  loaded : (p : Ptr) → Pc  -- `head`, not null
  linked : (p next : Ptr) → Pc  -- before the compare-exchange
  taken : (p : Ptr) → Pc  -- before `head->nextFree = nullptr`
  freeing : (p : Ptr) → Pc
  pushing : (p top : Ptr) → Pc  -- before `node->nextFree = head`
  joined : (p top : Ptr) → Pc  -- before the compare-exchange

abbrev pub set_next : Shared → Ptr → Ptr → Shared
set_next m p next = record m { heap = write m.heap p (record (m.heap p) { next_free = next }) }

-- A compare-exchange that fails, for whatever reason, brings the head again.
pub data Pop (m : Shared) : Pc → Shared → Pc → Type 0 where
  none_left : m.free_list ≡ null → Pop m idle m idle
  load : m.free_list ≢ null → Pop m idle m (loaded m.free_list)
  read_next : {p : Ptr} → Pop m (loaded p) m (linked p (m.heap p).next_free)
  win :
      {p next : Ptr}
      → m.free_list ≡ p
      → Pop m (linked p next) (record m { free_list = next; handed = p ∷ m.handed }) (taken p)
  lose : {p next : Ptr} → m.free_list ≢ null → Pop m (linked p next) m (loaded m.free_list)
  lose_last : {p next : Ptr} → m.free_list ≡ null → Pop m (linked p next) m idle
  unlink : {p : Ptr} → Pop m (taken p) (set_next m p null) idle

pub data Push (m : Shared) : Pc → Shared → Pc → Type 0 where
  begin : (p : Ptr) → Push m idle m (freeing p)
  load_top : {p : Ptr} → Push m (freeing p) m (pushing p m.free_list)
  join : {p top : Ptr} → Push m (pushing p top) (set_next m p top) (joined p top)
  put : {p top : Ptr} → m.free_list ≡ top → Push m (joined p top) (record m { free_list = p }) idle
  again : {p top : Ptr} → Push m (joined p top) m (pushing p m.free_list)

pub record System : Type 0 where
  pub shared : Shared
  pub pc : ℕ → Pc

abbrev pub moved : System → ℕ → Shared → Pc → System
moved s i m p = record { shared = m; pc = update s.pc i p }

-- The threads allocate, and none of them frees.
pub data Pops (s : System) : System → Type 0 where
  here : Pops s s
  pop :
      {t : System} {m : Shared} {p : Pc}
      → Pops s t
      → (i : ℕ) → Pop t.shared (t.pc i) m p
      → Pops s (moved t i m p)

-- They allocate and free.
pub data Mixed (s : System) : System → Type 0 where
  begun : Mixed s s
  popped :
      {t : System} {m : Shared} {p : Pc}
      → Mixed s t
      → (i : ℕ) → Pop t.shared (t.pc i) m p
      → Mixed s (moved t i m p)
  pushed :
      {t : System} {m : Shared} {p : Pc}
      → Mixed s t
      → (i : ℕ) → Push t.shared (t.pc i) m p
      → Mixed s (moved t i m p)

-- ===== src/LockFreeBucket.antt =====
-- src/LockFreeBucket.h: a chain whose head is exchanged atomically. First what one thread does while
-- no other is there, on the cells of the chain from the head on; then `operator()` between threads.
pub mod Sweep
pub mod Unique
use nanobdd.Base.{
  ℕ, zero, suc, ◌+◌, ◌-◌, ◌<◌, ◌≡◌, ◌≢◌, ◌==◌, if◌then◌else◌, Bool, true, false, not, List, [], ◌∷◌,
  ◌++◌, Run, ok, ◌>>=◌,
}
use nanobdd.Node.{Ptr, null, Heap, mark_rec, unmark}
use nanobdd.Concurrent.Threads.{update}

abbrev pub Chain : Type 0
Chain = List Ptr

unfoldable pub num_nodes : Chain → ℕ
num_nodes [] = 0
num_nodes (p ∷ ps) = num_nodes ps + 1

unfoldable pub mark_nodes : ℕ → Heap → Chain → Run Heap
mark_nodes fuel h [] = ok h
mark_nodes fuel h (p ∷ ps) =
    (if (h p).ref_count == 0 then ok h else mark_rec fuel h p) >>= λ h'. mark_nodes fuel h' ps

unfoldable pub unmark_nodes : Heap → Chain → Heap
unmark_nodes h [] = h
unmark_nodes h (p ∷ ps) = unmark_nodes (unmark h p) ps

-- The first loop of `freeNodes`: what is left from the first node in use on, and what is deleted.
unfoldable pub drop_unused : Heap → Chain → Chain × Chain
drop_unused h [] = ([], [])
drop_unused h (p ∷ ps) =
    let rest = drop_unused h ps in if (h p).in_use then (p ∷ ps, []) else (rest.0, p ∷ rest.1)

-- The second loop, over the nodes behind one that is in use.
unfoldable pub unlink_unused : Heap → Chain → Chain × Chain
unlink_unused h [] = ([], [])
unlink_unused h (p ∷ ps) =
    let rest = unlink_unused h ps in
    if (h p).in_use then (p ∷ rest.0, rest.1) else (rest.0, p ∷ rest.1)

-- From the store of the new head on: an early return if no node is left.
abbrev pub free_behind : Heap → Chain → Chain → Chain × Chain
free_behind h [] deleted = ([], deleted)
free_behind h (p ∷ ps) deleted = let rest = unlink_unused h ps in (p ∷ rest.0, deleted ++ rest.1)

-- The chain that is left, and the nodes that are deleted.
unfoldable pub free_nodes : Heap → Chain → Chain × Chain
free_nodes h chain = let (front, deleted) = drop_unused h chain in free_behind h front deleted

-- What `operator()` compares.
pub record Triple : Type 0 where
  pub level : ℕ
  pub low : Ptr
  pub high : Ptr

-- The nodes are numbered in the order of their insertion, from 1: the pointer `p` is node `p`, its
-- `next` is `p - 1`, and `null` ends the chain. A node's triple and link never change.
pub record Shared : Type 0 where
  pub nodes : ℕ → Triple
  pub head : ℕ

abbrev pub pushed : Shared → Triple → Shared
pushed m key = record { nodes = update m.nodes (m.head + 1) key; head = m.head + 1 }

-- Where a thread stands in `operator()`; `old` is `oldHead`, `top` is `newListNode->next`.
pub data Pc : Type 0 where
  idle : Pc
  scanning : (key : Triple) (old p : ℕ) → Pc
  ready : (key : Triple) (old : ℕ) → Pc  -- before the compare-exchange
  rescanning : (key : Triple) (old top p : ℕ) → Pc
  done : (key : Triple) (node : ℕ) → Pc

pub data Move (m : Shared) : Pc → Shared → Pc → Type 0 where
  load : (key : Triple) → Move m idle m (scanning key m.head m.head)
  hit :
      {key : Triple} {old p : ℕ}
      → p ≢ null
      → m.nodes p ≡ key
      → Move m (scanning key old p) m (done key p)
  miss :
      {key : Triple} {old p : ℕ}
      → p ≢ null
      → m.nodes p ≢ key
      → Move m (scanning key old p) m (scanning key old (p - 1))
  create : {key : Triple} {old p : ℕ} → p ≡ null → Move m (scanning key old p) m (ready key old)
  push :
      {key : Triple} {old : ℕ}
      → m.head ≡ old
      → Move m (ready key old) (pushed m key) (done key (m.head + 1))
  fail : {key : Triple} {old : ℕ} → Move m (ready key old) m (rescanning key old m.head m.head)
  hit_new :
      {key : Triple} {old top p : ℕ}
      → p ≢ old
      → m.nodes p ≡ key
      → Move m (rescanning key old top p) m (done key p)
  miss_new :
      {key : Triple} {old top p : ℕ}
      → p ≢ old
      → m.nodes p ≢ key
      → Move m (rescanning key old top p) m (rescanning key old top (p - 1))
  again :
      {key : Triple} {old top p : ℕ} → p ≡ old → Move m (rescanning key old top p) m (ready key top)
  return : {key : Triple} {node : ℕ} → Move m (done key node) m idle

pub record System : Type 0 where
  pub shared : Shared
  pub pc : ℕ → Pc

pub data Step (s : System) : System → Type 0 where
  pick :
      (i : ℕ) {m : Shared} {p : Pc}
      → Move s.shared (s.pc i) m p
      → Step s (record { shared = m; pc = update s.pc i p })

abbrev pub empty : (ℕ → Triple) → System
empty memory = record { shared = record { nodes = memory; head = null }; pc = λ _. idle }

pub data Reach (memory : ℕ → Triple) : System → Type 0 where
  start : Reach memory (empty memory)
  later : {s t : System} → Reach memory s → Step s t → Reach memory t

-- ===== src/Concurrent/CacheEntry.antt =====
-- src/LockFreeCache.h between threads: `lookup` and `insert` on one entry, an access at a time. The
-- use count is an `atomic_int`, in two's complement: `busy` is -1. Under the lock each field is read
-- once; the entry's fields are not atomic. `log` is not in the code: the results that calls of
-- `insert` have begun to write.
pub mod Invariant
pub mod Safety
use nanobdd.Base.{
  ℕ, ◌+◌, ◌-◌, ◌%◌, ◌^◌, ◌<◌, ◌≡◌, ◌≢◌, ◌⊎◌, ◌&&◌, ◌||◌, not, ◌==◌, if◌then◌else◌, Bool, true,
  false, List, [], ◌∷◌,
}
use nanobdd.Node.{Ptr, null}
use nanobdd.Cache.{is_commutative}
use nanobdd.Concurrent.Threads.{update}

-- What a lookup asks for.
pub record Key : Type 0 where
  pub left : Ptr
  pub right : Ptr
  pub op : ℕ

-- The fields of the entry, and the arguments of an insertion.
pub record Fields : Type 0 where
  pub node : Ptr
  pub left : Ptr
  pub right : Ptr
  pub op : ℕ

pub record Shared : Type 0 where
  pub fields : Fields
  pub count : ℕ
  pub log : List Fields

abbrev pub busy : ℕ
busy = 2 ^ 32 - 1

-- Where a thread stands in `lookup` (to `finished`) or `insert`, with its live locals.
pub data Pc : Type 0 where
  idle : Pc
  counted : (key : Key) (uc : ℕ) → Pc  -- before the compare-exchange
  entered : (key : Key) → Pc
  read_op : (key : Key) → Pc
  read_left : (key : Key) (l : Ptr) → Pc
  read_right : (key : Key) (l r : Ptr) → Pc
  leaving : (key : Key) (out : Ptr) → Pc
  finished : (key : Key) (out : Ptr) → Pc
  claimed : (e : Fields) → Pc
  wrote_node : (e : Fields) → Pc
  wrote_left : (e : Fields) → Pc
  wrote_right : (e : Fields) → Pc
  wrote_op : (e : Fields) → Pc

-- The test of `lookup` on the children.
abbrev pub same_key : Key → Ptr → Ptr → Bool
same_key key l r =
    (is_commutative key.op
      && (((l == key.left) && (r == key.right)) || ((l == key.right) && (r == key.left))))
    || (not (is_commutative key.op) && ((l == key.left) && (r == key.right)))

pub data Move (m : Shared) : Pc → Shared → Pc → Type 0 where
  ask_empty : {key : Key} → m.fields.node ≡ null → Move m idle m (finished key null)
  ask : {key : Key} → m.fields.node ≢ null → Move m idle m (counted key 0)
  enter :
      {key : Key} {uc : ℕ}
      → m.count ≡ uc
      → Move m (counted key uc) (record m { count = (uc + 1) % 2 ^ 32 }) (entered key)
  retry :
      {key : Key} {uc : ℕ}
      → m.count ≢ uc
      → m.count ≢ busy
      → Move m (counted key uc) m (counted key m.count)
  give_up :
      {key : Key} {uc : ℕ}
      → m.count ≢ uc
      → m.count ≡ busy
      → Move m (counted key uc) m (finished key null)
  same_op : {key : Key} → m.fields.op ≡ key.op → Move m (entered key) m (read_op key)
  other_op : {key : Key} → m.fields.op ≢ key.op → Move m (entered key) m (leaving key null)
  load_left : {key : Key} → Move m (read_op key) m (read_left key m.fields.left)
  load_right : {key : Key} {l : Ptr} → Move m (read_left key l) m (read_right key l m.fields.right)
  load_node :
      {key : Key} {l r : Ptr}
      → same_key key l r ≡ true
      → Move m (read_right key l r) m (leaving key m.fields.node)
  no_match :
      {key : Key} {l r : Ptr}
      → same_key key l r ≡ false
      → Move m (read_right key l r) m (leaving key null)
  leave :
      {key : Key} {out : Ptr}
      → Move m
          (leaving key out)
          (record m { count = (m.count + 2 ^ 32 - 1) % 2 ^ 32 })
          (finished key out)
  return : {key : Key} {out : Ptr} → Move m (finished key out) m idle
  claim :
      (e : Fields)
      → m.count ≡ 0
      → Move m idle (record m { count = busy; log = e ∷ m.log }) (claimed e)
  refused : Move m idle m idle
  store_node :
      {e : Fields}
      → Move m (claimed e) (record m { fields = record m.fields { node = e.node } }) (wrote_node e)
  store_left :
      {e : Fields}
      → Move m
          (wrote_node e)
          (record m { fields = record m.fields { left = e.left } })
          (wrote_left e)
  store_right :
      {e : Fields}
      → Move m
          (wrote_left e)
          (record m { fields = record m.fields { right = e.right } })
          (wrote_right e)
  store_op :
      {e : Fields}
      → Move m (wrote_right e) (record m { fields = record m.fields { op = e.op } }) (wrote_op e)
  release : {e : Fields} → Move m (wrote_op e) (record m { count = 0 }) idle

-- `n` threads on the entry, in any order.
pub record System : Type 0 where
  pub shared : Shared
  pub pc : ℕ → Pc

pub data Step (n : ℕ) (s : System) : System → Type 0 where
  pick :
      (i : ℕ) {m : Shared} {p : Pc}
      → i < n
      → Move s.shared (s.pc i) m p
      → Step n s (record { shared = m; pc = update s.pc i p })

abbrev pub fresh : System
fresh = record {
  shared = record {
    fields = record { node = null; left = null; right = null; op = 0 };
    count = 0;
    log = [];
  };
  pc = λ _. idle;
}

pub data Reach (n : ℕ) : System → Type 0 where
  start : Reach n fresh
  later : {s t : System} → Reach n s → Step n s t → Reach n t

-- `invalidateAll` on the entry, which takes no account of the use count. The table calls it under its
-- own lock, which lookups and insertions do not take.
abbrev pub invalidated : Shared → Shared
invalidated m = record m {
  fields = record m.fields { node = null; left = null; right = null };
  count = 0;
}

-- Runs with calls of `invalidateAll` among the steps.
pub data Disturbed (n : ℕ) : System → Type 0 where
  calm : {s : System} → Reach n s → Disturbed n s
  moved : {s t : System} → Disturbed n s → Step n s t → Disturbed n t
  cleared : {s : System} → Disturbed n s → Disturbed n (record s { shared = invalidated s.shared })

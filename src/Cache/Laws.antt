-- ===== src/Cache/Laws.antt =====
-- The cache alone: what a lookup returns and what an insertion changes.
use nanobdd.Base.{
  ℕ, ◌<◌, ◌≡◌, ◌≢◌, ◌⊎◌, inl, inr, true, false, ◌==◌, if◌then◌else◌, length, get_or, set, at-get_or,
  arith, refl, ok, Returns, eq_cases, Bool-cases,
}
use nanobdd.Node.{Ptr, null}
use nanobdd.Cache.{
  Operator, code, Lock, writer, readers, Entry, empty_entry, Cache, is_commutative, hit, lookup,
  lookup_entry, insert, insert_entry,
}

pub code-injective : (o p : Operator) → code o ≡ code p → o ≡ p
code-injective o p e = ground arith

pub hit-op : (e : Entry) (x y : Ptr) (op : ℕ) → hit e x y op ≡ true → e.op ≡ op
hit-op e x y op h = ground arith

-- What a hit says of the operands.
pub hit-operands :
    (e : Entry) (x y : Ptr) (op : ℕ)
    → hit e x y op ≡ true
    → ((e.left ≡ x) × (e.right ≡ y)) ⊎ ((is_commutative op ≡ true) × (e.left ≡ y) × (e.right ≡ x))
hit-operands e x y op h = ground arith

-- `null`, or the node of an entry that fits
abbrev pub IsAnswer : Entry → Ptr → Ptr → ℕ → Ptr → Type 0
IsAnswer e x y op c = (c ≡ null) ⊎ ((c ≢ null) × (hit e x y op ≡ true) × (c ≡ e.node))

read-IsAnswer :
    (e : Entry) (x y : Ptr) (op : ℕ) (l : Lock)
    → e.node ≢ null
    → IsAnswer e x y op (lookup_entry e x y op l)
unfolding lookup_entry
read-IsAnswer e x y op writer n = inl refl
read-IsAnswer e x y op (readers k) n = elim (Bool-cases (hit e x y op)) [
  | inl h ↦ rw h (inr (n, refl, refl))
  | inr h ↦ rw h (inl refl)
]

answer : Entry → Ptr → Ptr → ℕ → Ptr
answer e x y op = if e.node == null then null else lookup_entry e x y op e.use_count

answer-IsAnswer : (e : Entry) (x y : Ptr) (op : ℕ) → IsAnswer e x y op (answer e x y op)
unfolding answer
answer-IsAnswer e x y op = elim (eq_cases e.node null) [
  | inl z ↦ inl (ground arith)
  | inr n ↦
      let ne : (e.node == null) ≡ false = ground (arith, n) in
      rw ne (read-IsAnswer e x y op e.use_count n)
]

pub lookup-IsAnswer :
    (cache : Cache) (hash : ℕ) (x y : Ptr) (op : Operator)
    → hash < length cache
    → Returns (lookup cache hash x y op) (IsAnswer (get_or cache hash empty_entry) x y (code op))
unfolding lookup answer
lookup-IsAnswer cache hash x y op lt =
    let e = get_or cache hash empty_entry in
    rw (at-get_or cache hash empty_entry lt)
      (answer e x y (code op), refl, answer-IsAnswer e x y (code op))

-- The entry is left as it is, or holds the new result.
abbrev pub IsKept : Entry → Ptr → Ptr → Ptr → ℕ → Entry → Type 0
IsKept old node left right op e =
    (e ≡ old)
    ⊎ (e ≡ record { node = node; left = left; right = right; op = op; use_count = readers 0 })

keep-IsKept :
    (e : Entry) (node left right : Ptr) (op : ℕ) (l : Lock)
    → IsKept e node left right op (insert_entry e node left right op l)
unfolding insert_entry
keep-IsKept e node left right op writer = inl refl
keep-IsKept e node left right op (readers k) = elim (Bool-cases (k == 0)) [
  | inl z ↦ rw z (inr refl)
  | inr z ↦ rw z (inl refl)
]

pub insert-IsKept :
    (cache : Cache) (hash : ℕ) (node x y : Ptr) (op : Operator)
    → hash < length cache
    → (e : Entry) × (insert cache hash node x y op ≡ ok (set cache hash e))
      × IsKept (get_or cache hash empty_entry) node x y (code op) e
unfolding insert
insert-IsKept cache hash node x y op lt =
    let e = get_or cache hash empty_entry in
    (
      insert_entry e node x y (code op) e.use_count,
      rw (at-get_or cache hash empty_entry lt),
      keep-IsKept e node x y (code op) e.use_count,
    )

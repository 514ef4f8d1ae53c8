-- ===== src/Concurrent/CacheEntry/Invariant.antt =====
-- Readers and writers exclude each other, and no lookup returns a mixture of two insertions.
use nanobdd.Base.{
  ℕ, ◌+◌, ◌^◌, ◌≤◌, ◌<◌, ◌≡◌, ◌≢◌, ◌⊎◌, ◌==◌, if◌then◌else◌, inl, inr, true, false, eq_cases, List,
  [], ◌∷◌, arith, refl, sym, ap, subst,
}
use nanobdd.Node.{Ptr, null}
use nanobdd.Concurrent.Threads.{
  update, sum, sum-update, weight-le_sum, weights-le_sum, sum-le, sum-eq_zero,
}
use nanobdd.Concurrent.CacheEntry.{
  Key, Fields, Shared, busy, Pc, idle, counted, entered, read_op, read_left, read_right, leaving,
  finished, claimed, wrote_node, wrote_left, wrote_right, wrote_op, same_key, Move, ask_empty, ask,
  enter, retry, give_up, same_op, other_op, load_left, load_right, load_node, no_match, leave,
  return, claim, refused, store_node, store_left, store_right, store_op, release, System, pick,
  fresh, Reach, start, later,
}

abbrev pub reads : Pc → ℕ
reads (entered _) = 1
reads (read_op _) = 1
reads (read_left _ _) = 1
reads (read_right _ _ _) = 1
reads (leaving _ _) = 1
reads _ = 0

abbrev pub writes : Pc → ℕ
writes (claimed _) = 1
writes (wrote_node _) = 1
writes (wrote_left _) = 1
writes (wrote_right _) = 1
writes (wrote_op _) = 1
writes _ = 0

abbrev pub In : Fields → List Fields → Type 0
In e [] = ⊥
In e (x ∷ xs) = (e ≡ x) ⊎ In e xs

-- `null`, or the node of an insertion with this key
abbrev pub IsAnswer : List Fields → Key → Ptr → Type 0
IsAnswer log key out =
    (out ≡ null)
    ⊎ ((e : Fields) × In e log
        × (e.node ≡ out)
        × (e.op ≡ key.op)
        × (same_key key e.left e.right ≡ true))

-- What a thread knows about the fields.
abbrev pub Knows : Fields → List Fields → Pc → Type 0
Knows f log (counted key uc) = uc ≢ busy
Knows f log (read_op key) = f.op ≡ key.op
Knows f log (read_left key l) = (f.op ≡ key.op) × (f.left ≡ l)
Knows f log (read_right key l r) = (f.op ≡ key.op) × (f.left ≡ l) × (f.right ≡ r)
Knows f log (leaving key out) = IsAnswer log key out
Knows f log (finished key out) = IsAnswer log key out
Knows f log (claimed e) = In e log
Knows f log (wrote_node e) = In e log × (f.node ≡ e.node)
Knows f log (wrote_left e) = In e log × (f.node ≡ e.node) × (f.left ≡ e.left)
Knows f log (wrote_right e) = In e log × (f.node ≡ e.node) × (f.left ≡ e.left) × (f.right ≡ e.right)
Knows f log (wrote_op e) = In e log × (f ≡ e)
Knows f log _ = Unit

pub record Inv (n : ℕ) (m : Shared) (pc : ℕ → Pc) : Type 0 where
  pub few : n < 2 ^ 31
  pub excluded :
      ((sum writes n pc ≡ 0) × (m.count ≡ sum reads n pc))
      ⊎ ((sum writes n pc ≡ 1) × (sum reads n pc ≡ 0) × (m.count ≡ busy))
  pub whole : sum writes n pc ≡ 0 → (m.fields.node ≡ null) ⊎ In m.fields m.log
  pub knows : (i : ℕ) → i < n → Knows m.fields m.log (pc i)

IsAnswer-more :
    (log : List Fields) (e : Fields) (key : Key) (out : Ptr)
    → IsAnswer log key out
    → IsAnswer (e ∷ log) key out
IsAnswer-more log e key out (inl z) = inl z
IsAnswer-more log e key out (inr (x, i, a, b, c)) = inr (x, inr i, a, b, c)

-- A longer log loses nothing.
Knows-more :
    (f : Fields) (log : List Fields) (e : Fields) (p : Pc) → Knows f log p → Knows f (e ∷ log) p
Knows-more f log e (leaving key out) k = IsAnswer-more log e key out k
Knows-more f log e (finished key out) k = IsAnswer-more log e key out k
Knows-more f log e (claimed x) k = inr k
Knows-more f log e (wrote_node x) (i, r) = (inr i, r)
Knows-more f log e (wrote_left x) (i, a, b) = (inr i, a, b)
Knows-more f log e (wrote_right x) (i, a, b, c) = (inr i, a, b, c)
Knows-more f log e (wrote_op x) (i, r) = (inr i, r)
Knows-more f log e (read_op key) k = k
Knows-more f log e (read_left key l) k = k
Knows-more f log e (read_right key l r) k = k
Knows-more f log e idle k = k
Knows-more f log e (counted key uc) k = k
Knows-more f log e (entered key) k = k

-- A thread outside knows nothing about the fields.
Knows-outside :
    (f g : Fields) (log : List Fields) (p : Pc)
    → reads p ≡ 0
    → writes p ≡ 0
    → Knows f log p
    → Knows g log p
Knows-outside f g log idle r w k = k
Knows-outside f g log (counted key uc) r w k = k
Knows-outside f g log (finished key out) r w k = k
Knows-outside f g log (entered key) r w k = absurd (omega arith)
Knows-outside f g log (read_op key) r w k = absurd (omega arith)
Knows-outside f g log (read_left key l) r w k = absurd (omega arith)
Knows-outside f g log (read_right key l x) r w k = absurd (omega arith)
Knows-outside f g log (leaving key out) r w k = absurd (omega arith)
Knows-outside f g log (claimed e) r w k = absurd (omega arith)
Knows-outside f g log (wrote_node e) r w k = absurd (omega arith)
Knows-outside f g log (wrote_left e) r w k = absurd (omega arith)
Knows-outside f g log (wrote_right e) r w k = absurd (omega arith)
Knows-outside f g log (wrote_op e) r w k = absurd (omega arith)

module _ {n : ℕ} {m : Shared} {pc : ℕ → Pc} (inv : Inv n m pc) (i : ℕ) (lt : i < n) where
  -- The two counts after thread `i` has moved from `p` to `p'`.
  record Moved (p p' : Pc) : Type 0 where
    stands : pc i ≡ p
    readers : reads p + sum reads n (update pc i p') ≡ reads p' + sum reads n pc
    writers : writes p + sum writes n (update pc i p') ≡ writes p' + sum writes n pc
    reading : reads p ≤ sum reads n pc
    writing : writes p ≤ sum writes n pc
    bounded : (sum reads n pc ≤ n) × (sum reads n (update pc i p') ≤ n)
    here : Knows m.fields m.log p

  moved : (p' : Pc) → Moved (pc i) p'
  moved p' = record {
    stands = refl;
    readers = sum-update reads n pc i p' lt;
    writers = sum-update writes n pc i p' lt;
    reading = weight-le_sum reads n pc i lt;
    writing = weight-le_sum writes n pc i lt;
    bounded = (
      sum-le reads (λ p. ground arith) n pc,
      sum-le reads (λ p. ground arith) n (update pc i p'),
    );
    here = inv.knows i lt;
  }

  Move-excluded :
      {p p' : Pc} {m' : Shared}
      → Move m p m' p'
      → Moved p p'
      → ((sum writes n (update pc i p') ≡ 0) × (m'.count ≡ sum reads n (update pc i p')))
        ⊎ ((sum writes n (update pc i p') ≡ 1)
            × (sum reads n (update pc i p') ≡ 0)
            × (m'.count ≡ busy))
  Move-excluded (enter g) d = ground (arith, inv.excluded, inv.few, d.here)
  Move-excluded (claim e g) d = ground (arith, inv.excluded, inv.few)
  Move-excluded mv d = ground (arith, inv.excluded, inv.few)

  -- While a writer is inside, the others are outside.
  alone :
      {p p' : Pc} (d : Moved p p')
      → writes p ≡ 1
      → (j : ℕ) → j < n
      → j ≢ i
      → (reads (pc j) ≡ 0) × (writes (pc j) ≡ 0)
  alone d w j below ne =
      let r = weight-le_sum reads n pc j below in
      let both = weights-le_sum writes n pc i j lt below (λ e. ne (sym e)) in
      let own : writes (pc i) ≡ 1 = rw d.stands w in ground (arith, inv.excluded, d.writing)

  stored_others :
      {p p' : Pc} (d : Moved p p') (f : Fields)
      → writes p ≡ 1
      → (j : ℕ) → j < n
      → j ≢ i
      → Knows f m.log (pc j)
  stored_others d f w j below ne =
      let (r, k) = alone d w j below ne in
      Knows-outside m.fields f m.log (pc j) r k (inv.knows j below)

  Move-others :
      {p p' : Pc} {m' : Shared}
      → Move m p m' p'
      → Moved p p'
      → (j : ℕ) → j < n
      → j ≢ i
      → Knows m'.fields m'.log (pc j)
  Move-others (claim e g) d j below ne = Knows-more m.fields m.log e (pc j) (inv.knows j below)
  Move-others store_node d j below ne = stored_others d _ refl j below ne
  Move-others store_left d j below ne = stored_others d _ refl j below ne
  Move-others store_right d j below ne = stored_others d _ refl j below ne
  Move-others store_op d j below ne = stored_others d _ refl j below ne
  Move-others mv d j below ne = inv.knows j below

  -- A reader finds the fields of one insertion.
  loaded :
      {key : Key} {l r : Ptr} {p' : Pc}
      → Moved (read_right key l r) p'
      → same_key key l r ≡ true
      → IsAnswer m.log key m.fields.node
  loaded {key} d e =
      let (o, a, b) = d.here in
      elim (inv.whole (ground (arith, inv.excluded, d.reading))) [
        | inl z ↦ inl z
        | inr x ↦ inr (m.fields, x, refl, o, rw (a, b) e)
      ]

  Move-own : {p p' : Pc} {m' : Shared} → Move m p m' p' → Moved p p' → Knows m'.fields m'.log p'
  Move-own (ask_empty g) d = inl refl
  Move-own (ask g) d = λ e. absurd (omega arith)
  Move-own (enter g) d = tt
  Move-own (retry g b) d = b
  Move-own (give_up g b) d = inl refl
  Move-own (same_op g) d = g
  Move-own (other_op g) d = inl refl
  Move-own load_left d = (d.here, refl)
  Move-own load_right d = (d.here.0, d.here.1, refl)
  Move-own (load_node g) d = loaded d g
  Move-own (no_match g) d = inl refl
  Move-own leave d = d.here
  Move-own return d = tt
  Move-own (claim e g) d = inl refl
  Move-own refused d = tt
  Move-own store_node d = (d.here, refl)
  Move-own store_left d = (d.here.0, d.here.1, refl)
  Move-own store_right d = (d.here.0, d.here.1, d.here.2, refl)
  Move-own store_op d = (d.here.0, cc)
  Move-own release d = tt

  Move-whole :
      {p p' : Pc} {m' : Shared}
      → Move m p m' p'
      → Moved p p'
      → sum writes n (update pc i p') ≡ 0
      → (m'.fields.node ≡ null) ⊎ In m'.fields m'.log
  Move-whole (claim e g) d z = absurd (omega (arith, d.writers))
  Move-whole store_node d z = absurd (omega (arith, d.writers))
  Move-whole store_left d z = absurd (omega (arith, d.writers))
  Move-whole store_right d z = absurd (omega (arith, d.writers))
  Move-whole store_op d z = absurd (omega (arith, d.writers))
  Move-whole release d z = inr (subst (λ f. In f m.log) (sym d.here.1) d.here.0)
  Move-whole mv d z = inv.whole (omega (arith, d.writers))

  Move-Inv : {m' : Shared} {p' : Pc} → Move m (pc i) m' p' → Inv n m' (update pc i p')
  Move-Inv {m'} {p'} mv =
      let d = moved p' in
      record {
        few = inv.few;
        excluded = Move-excluded mv d;
        whole = Move-whole mv d;
        knows = λ j below. elim (eq_cases j i) [
          | inl e ↦
              let b : (j == i) ≡ true = ground arith in
              subst (Knows m'.fields m'.log) (ap (λ c. if c then p' else pc j) (sym b))
                (Move-own mv d)
          | inr ne ↦
              let b : (j == i) ≡ false = ground (arith, ne) in
              subst (Knows m'.fields m'.log) (ap (λ c. if c then p' else pc j) (sym b))
                (Move-others mv d j below ne)
        ];
      }

fresh-Inv : (n : ℕ) → n < 2 ^ 31 → Inv n fresh.shared fresh.pc
fresh-Inv n few = record {
  few = few;
  excluded =
      inl
        (sum-eq_zero writes n fresh.pc (λ i. refl), sym (sum-eq_zero reads n fresh.pc (λ i. refl)));
  whole = λ z. inl refl;
  knows = λ i below. tt;
}

pub Reach-Inv : {n : ℕ} {s : System} → n < 2 ^ 31 → Reach n s → Inv n s.shared s.pc
Reach-Inv {n} few start = fresh-Inv n few
Reach-Inv few (later r (pick i lt mv)) = Move-Inv (Reach-Inv few r) i lt mv

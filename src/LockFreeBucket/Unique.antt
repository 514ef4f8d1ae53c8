-- ===== src/LockFreeBucket/Unique.antt =====
-- However the threads are interleaved, no triple stands in the chain twice.
use nanobdd.Base.{
  ℕ, ◌+◌, ◌-◌, ◌≤◌, ◌<◌, ◌≡◌, ◌≢◌, ◌==◌, if◌then◌else◌, true, false, inl, inr, eq_cases, trichotomy,
  arith, refl, sym, ap, ◌∙◌, subst,
}
use nanobdd.LockFreeBucket.{
  Triple, Shared, pushed, Pc, idle, scanning, ready, rescanning, done, Move, load, hit, miss,
  create, push, fail, hit_new, miss_new, again, return, System, pick, Reach, start, later,
}

-- The triple is at none of the nodes above `low` up to `high`.
abbrev pub Absent : Shared → Triple → ℕ → ℕ → Type 0
Absent m key low high = (j : ℕ) → low < j → j ≤ high → m.nodes j ≢ key

-- What a thread knows about the chain.
abbrev pub Knows : Shared → Pc → Type 0
Knows m idle = Unit
Knows m (scanning key old p) = (p ≤ old) × (old ≤ m.head) × Absent m key p old
Knows m (ready key old) = (old ≤ m.head) × Absent m key 0 old
Knows m (rescanning key old top p) =
    (old ≤ p) × (p ≤ top) × (top ≤ m.head) × Absent m key 0 old × Absent m key p top
Knows m (done key node) = (0 < node) × (node ≤ m.head) × (m.nodes node ≡ key)

abbrev pub IsUnique : Shared → Type 0
IsUnique m = (i j : ℕ) → 0 < i → i ≤ m.head → 0 < j → j ≤ m.head → m.nodes i ≡ m.nodes j → i ≡ j

pub record Inv (s : System) : Type 0 where
  pub unique : IsUnique s.shared
  pub knows : (i : ℕ) → Knows s.shared (s.pc i)

-- A push leaves the nodes that are there.
old_node : (m : Shared) (key : Triple) (j : ℕ) → j ≤ m.head → (pushed m key).nodes j ≡ m.nodes j
old_node m key j le = let b : (j == m.head + 1) ≡ false = ground arith in rw b refl

new_node : (m : Shared) (key : Triple) → (pushed m key).nodes (m.head + 1) ≡ key
new_node m key = let b : (m.head + 1 == m.head + 1) ≡ true = ground arith in rw b refl

Absent-pushed :
    (m : Shared) (key new : Triple) (low high : ℕ)
    → high ≤ m.head
    → Absent m key low high
    → Absent (pushed m new) key low high
Absent-pushed m key new low high le a j above below e =
    a j above below (sym (old_node m new j (omega arith)) ∙ e)

Knows-pushed : (m : Shared) (new : Triple) (p : Pc) → Knows m p → Knows (pushed m new) p
Knows-pushed m new idle k = tt
Knows-pushed m new (scanning key old p) (a, b, c) =
    (a, omega arith, Absent-pushed m key new p old b c)
Knows-pushed m new (ready key old) (a, b) = (omega arith, Absent-pushed m key new 0 old a b)
Knows-pushed m new (rescanning key old top p) (a, b, c, x, y) = (
  a,
  b,
  omega arith,
  Absent-pushed m key new 0 old (omega arith) x,
  Absent-pushed m key new p top c y,
)
Knows-pushed m new (done key node) (a, b, c) = (a, omega arith, old_node m new node b ∙ c)

-- One node more is known not to hold the triple.
Absent-down :
    (m : Shared) (key : Triple) (p high : ℕ)
    → m.nodes p ≢ key
    → Absent m key p high
    → Absent m key (p - 1) high
Absent-down m key p high ne a j above below e = elim (eq_cases j p) [
  | inl same ↦ ne (sym (ap m.nodes same) ∙ e)
  | inr other ↦ a j (omega arith) below e
]

Absent-join :
    (m : Shared) (key : Triple) (middle high : ℕ)
    → Absent m key 0 middle
    → Absent m key middle high
    → Absent m key 0 high
Absent-join m key middle high a b j above below e = elim (trichotomy j middle) [
  | inl lt ↦ a j above (omega arith) e
  | inr (inl same) ↦ a j above (omega arith) e
  | inr (inr gt) ↦ b j gt below e
]

pushed-IsUnique :
    (m : Shared) (key : Triple) → Absent m key 0 m.head → IsUnique m → IsUnique (pushed m key)
pushed-IsUnique m key a u i j pi li pj lj e = elim (eq_cases i (m.head + 1)) [
  | inl ei ↦ elim (eq_cases j (m.head + 1)) [
    | inl ej ↦ ei ∙ sym ej
    | inr nj ↦
        let lj' : j ≤ m.head = omega arith in
        absurd (
          a j pj lj'
            (sym (old_node m key j lj') ∙ sym e ∙ ap (pushed m key).nodes ei ∙ new_node m key))
  ]
  | inr ni ↦
      let li' : i ≤ m.head = omega arith in
      elim (eq_cases j (m.head + 1)) [
        | inl ej ↦ absurd (
            a i pi li'
              (sym (old_node m key i li') ∙ e ∙ ap (pushed m key).nodes ej ∙ new_node m key))
        | inr nj ↦
            let lj' : j ≤ m.head = omega arith in
            u i j pi li' pj lj' (sym (old_node m key i li') ∙ e ∙ old_node m key j lj')
      ]
]

Move-own : {m m' : Shared} {p p' : Pc} → Move m p m' p' → Knows m p → Knows m' p'
Move-own (load key) k = (omega arith, omega arith, λ j above below. absurd (omega arith))
Move-own (hit ne e) k = (omega arith, omega (arith, k.0, k.1), e)
Move-own {m} (miss {key} {old} {p} ne d) k =
    (omega (arith, k.0), k.1, Absent-down m key p old d k.2)
Move-own {m} (create {key} {old} z) k = (k.1, subst (λ q. Absent m key q old) z k.2)
Move-own {m} (push {key} e) k = (omega arith, omega arith, new_node m key)
Move-own fail k = (k.0, omega arith, omega arith, k.1, λ j above below. absurd (omega arith))
Move-own (hit_new ne e) k = (omega (arith, k.0), omega (arith, k.1, k.2), e)
Move-own {m} (miss_new {key} {old} {top} {p} ne d) k =
    (omega (arith, k.0), omega (arith, k.1), k.2, k.3, Absent-down m key p top d k.4)
Move-own {m} (again {key} {old} {top} e) k =
    (k.2, Absent-join m key old top k.3 (subst (λ q. Absent m key q top) e k.4))
Move-own return k = tt

Move-others : {m m' : Shared} {p p' : Pc} → Move m p m' p' → (q : Pc) → Knows m q → Knows m' q
Move-others {m} (push {key} e) q k = Knows-pushed m key q k
Move-others mv q k = k

Move-IsUnique : {m m' : Shared} {p p' : Pc} → Move m p m' p' → Knows m p → IsUnique m → IsUnique m'
Move-IsUnique {m} (push {key} e) k u = pushed-IsUnique m key (subst (Absent m key 0) (sym e) k.1) u
Move-IsUnique mv k u = u

pub Reach-Inv : {memory : ℕ → Triple} {s : System} → Reach memory s → Inv s
Reach-Inv start = record { unique = λ i j pi li pj lj e. absurd (omega arith); knows = λ i. tt }
Reach-Inv (later {s} r (pick i {m} {p} mv)) =
    let inv = Reach-Inv r in
    record {
      unique = Move-IsUnique mv (inv.knows i) inv.unique;
      knows = λ j. elim (eq_cases j i) [
        | inl e ↦
            let b : (j == i) ≡ true = ground arith in
            subst (Knows m) (ap (λ c. if c then p else s.pc j) (sym b)) (Move-own mv (inv.knows i))
        | inr ne ↦
            let b : (j == i) ≡ false = ground (arith, ne) in
            subst (Knows m) (ap (λ c. if c then p else s.pc j) (sym b))
              (Move-others mv (s.pc j) (inv.knows j))
      ];
    }

-- In every reachable state, however many threads there are, two nodes of the chain with the same
-- level and children are the same node.
pub chain_unique :
    {memory : ℕ → Triple} {s : System}
    → Reach memory s
    → (p q : ℕ) → 0 < p
    → p ≤ s.shared.head
    → 0 < q
    → q ≤ s.shared.head
    → s.shared.nodes p ≡ s.shared.nodes q
    → p ≡ q
chain_unique r = (Reach-Inv r).unique

-- In every reachable state, two threads that have got a node for the same level and children have got
-- the same node.
same_result :
    {memory : ℕ → Triple} {s : System} {key : Triple} {p q : ℕ}
    → Reach memory s
    → (i j : ℕ) → s.pc i ≡ done key p
    → s.pc j ≡ done key q
    → p ≡ q
same_result {s} {key} {p} {q} r i j e f =
    let inv = Reach-Inv r in
    let (a, b, c) : Knows s.shared (done key p) = subst (Knows s.shared) e (inv.knows i) in
    let (x, y, z) : Knows s.shared (done key q) = subst (Knows s.shared) f (inv.knows j) in
    inv.unique p q a b x y (c ∙ sym z)

-- ===== src/Concurrent/Creation/Safety.antt =====
-- However threads are interleaved, no node stands in the table twice.
use nanobdd.Base.{ℕ, ◌<◌, ◌≡◌, ◌≢◌, sym, ap, subst, ◌∙◌}
use nanobdd.Node.{Ptr}
use nanobdd.Platform.{Platform}
use nanobdd.Concurrent.Creation.{Triple, searching, comparing, done, System, Reach, HasNoStalePop}
use nanobdd.Concurrent.Creation.Invariant.{size, node, home_at, Got, Knows}
use nanobdd.Concurrent.Creation.Moves.{some_injective}
use nanobdd.Concurrent.Creation.Steps.{Reach-Inv}

module _ ⦃env : Platform⦄ (table_size : ℕ) where
  -- After every run in which no exchange of `popFree` succeeds with a link that has changed since the
  -- thread read it, however many threads there are, two nodes of the table with the same level and
  -- children are the same node of the same bucket.
  pub nodes_unique :
      {threads : ℕ} {memory : Ptr → Triple} {s : System}
      → (r : Reach table_size threads memory s) → HasNoStalePop table_size r
      → (b d j k : ℕ) → j < size s.shared b
      → k < size s.shared d
      → s.shared.triple (node s.shared b j) ≡ s.shared.triple (node s.shared d k)
      → (b ≡ d) × (j ≡ k)
  nodes_unique {s = s} r fair b d j k lt lt' same =
      let safe = (Reach-Inv table_size r fair).safe in
      let e : b ≡ d =
        sym (safe.placed b j lt).1 ∙ ap (home_at table_size) same ∙ (safe.placed d k lt').1 in
      (
        e,
        safe.unique b j k lt (subst (λ z. k < size s.shared z) (sym e) lt')
            (same ∙ ap (λ z. s.shared.triple (node s.shared z k)) (sym e)),
      )

  -- After every run in which no exchange of `popFree` succeeds with a link that has changed since the
  -- thread read it, the node that `getOrCreateNode` returns to a thread has the level and the children
  -- that the thread asked for and is in their bucket, and two threads that asked for the same get the
  -- same node.
  pub same_node :
      {threads : ℕ} {memory : Ptr → Triple} {s : System} {key : Triple} {p : Ptr}
      → (r : Reach table_size threads memory s) → HasNoStalePop table_size r
      → (i : ℕ) → s.pc i ≡ done key p
      → Got table_size s.shared key p × ((j : ℕ) (q : Ptr) → s.pc j ≡ done key q → q ≡ p)
  same_node {s = s} {key} {p} r fair i at =
      let inv = Reach-Inv table_size r fair in
      let here : Got table_size s.shared key p =
        subst (Knows table_size s.shared i) at (inv.knows i) in
      (
        here,
        λ j q at'.
            let there : Got table_size s.shared key q =
              subst (Knows table_size s.shared j) at' (inv.knows j) in
            let (a, lt, x, e) = here in
            let (b, lt', y, e') = there in
            let same =
              inv.safe.unique (home_at table_size key) a b lt lt'
                (ap s.shared.triple x ∙ e ∙ sym e' ∙ ap s.shared.triple (sym y)) in
            sym y ∙ ap (node s.shared (home_at table_size key)) (sym same) ∙ x,
      )

  -- After every such run, while a thread compares and inserts under the lock of a bucket, no other
  -- thread does, and none searches the bucket.
  insertion_excludes :
      {threads : ℕ} {memory : Ptr → Triple} {s : System} {key key' : Triple} {c : Ptr} {n : ℕ}
      → (r : Reach table_size threads memory s) → HasNoStalePop table_size r
      → (i : ℕ) → s.pc i ≡ comparing key c n
      → home_at table_size key ≡ home_at table_size key'
      → (j : ℕ)
      → ((k : ℕ) → s.pc j ≢ searching key' k)
        × ((d : Ptr) (k : ℕ) → s.pc j ≡ comparing key' d k → j ≡ i)
  insertion_excludes {s = s} {key} {key'} {c} {n} r fair i at e j =
      let inv = Reach-Inv table_size r fair in
      let held = (subst (Knows table_size s.shared i) at (inv.knows i)).0 in
      (
        λ k at'.
            let reads = (subst (Knows table_size s.shared j) at' (inv.knows j)).0 in
            let quiet = inv.safe.excluded (home_at table_size key) i held j in
            absurd (cc (ap (λ b. s.shared.reading b j) e, reads, quiet)),
        λ d k at'.
            let holds = (subst (Knows table_size s.shared j) at' (inv.knows j)).0 in
            some_injective j i (sym holds ∙ ap s.shared.writer (sym e) ∙ held),
      )

-- ===== src/Concurrent/Creation/Steps.antt =====
-- Each step keeps the invariant, as long as no pop is stale.
use nanobdd.Base.{
  [], ℕ, ◌+◌, ◌≡◌, ◌≢◌, ◌⊎◌, Bool, true, false, none, some, inl, inr, arith, refl, sym, ap, subst,
  ◌∙◌, eq_cases,
}
use nanobdd.Node.{Ptr, null}
use nanobdd.Platform.{Platform}
use nanobdd.Concurrent.Threads.{update, update_here}
use nanobdd.Concurrent.Creation.{
  Triple, Shared, Pc, idle, finding, searching, allocating, popping, linking, taking, slabbing,
  filling, filled, inserting, comparing, losing, freeing, pushing, joining, counting, done,
  set_reading, set_writer, set_triple, set_link, popped, sliced, cleared, given_back, pushed, entry,
  System, Move, begin, lock_shared, hit, miss, not_found, load_head, none_free, read_link, pop,
  pop_again, unlink, slice, no_cell, fill, unlink_again, lock, lose, differ, push, free, load_top,
  join, put, put_again, count, return, Reach, start, later, pick, IsFresh, HasNoStalePop,
}
use nanobdd.Concurrent.Creation.Invariant.{
  node, Holds, home_at, Own, Before, Knows, IsKind, Inv, next-Inv, Got-kept,
}
use nanobdd.Concurrent.Creation.Moves.{
  set_reading-IsKind, set_reading-IsSafe, set_writer-IsKind, set_writer-IsSafe,
}
use nanobdd.Concurrent.Creation.Cells.{
  set_triple-IsSafe, set_triple-IsKind, set_link-IsSafe, set_link-IsKind, given_back-IsSafe,
  given_back-IsKind, taken-IsKind, taken-Own, next-idle, sliced-IsSafe, head-idle, popped-IsSafe,
}
use nanobdd.Concurrent.Creation.Push.{pushed-IsSafe, pushed-IsKind, pushed-Got}

module _ ⦃env : Platform⦄ (table_size : ℕ) where
  Holds-taken :
      (m : Shared) (j : ℕ) (q : Pc) (c : Ptr)
      → Holds q c
      → Knows table_size m j q
      → m.taken c ≡ true
  Holds-taken m j (taking key d) c h k = ap m.taken (sym h) ∙ k.0
  Holds-taken m j (filling key d) c h k = ap m.taken (sym h) ∙ k.0
  Holds-taken m j (filled key d) c h k = ap m.taken (sym h) ∙ k.0.0
  Holds-taken m j (inserting key d) c h k = ap m.taken (sym h) ∙ k.0.0
  Holds-taken m j (comparing key d n) c h (w, le, b, k) = ap m.taken (sym h) ∙ k.0.0
  Holds-taken m j (losing key d p) c h (k, g) = ap m.taken (sym h) ∙ k.0
  Holds-taken m j (freeing key d p) c h (k, g) = ap m.taken (sym h) ∙ k.0
  Holds-taken m j (pushing key d p top) c h (k, g) = ap m.taken (sym h) ∙ k.0
  Holds-taken m j (joining key d p top) c h (k, g, e) = ap m.taken (sym h) ∙ k.0
  Holds-taken m j idle c h k = absurd h
  Holds-taken m j (finding key) c h k = absurd h
  Holds-taken m j (searching key n) c h k = absurd h
  Holds-taken m j (allocating key) c h k = absurd h
  Holds-taken m j (slabbing key) c h k = absurd h
  Holds-taken m j (popping key p) c h k = absurd h
  Holds-taken m j (linking key p n) c h k = absurd h
  Holds-taken m j (counting key d) c h k = absurd h
  Holds-taken m j (done key d) c h k = absurd h

  same-IsKind : (i : ℕ) (p : Pc) (m : Shared) → IsKind table_size i p m m
  same-IsKind i p m = record {
    larger = λ b. omega arith;
    grow = λ b j lt. (lt, refl);
    triple_same = λ b j lt. refl;
    writer_same = λ b j ne w. (w, refl);
    reading_same = λ b j ne. refl;
    own = λ c k nh. (k, refl, refl);
  }

  -- One more node is known not to have the triple.
  Before-next :
      (m : Shared) (key : Triple) (k : ℕ)
      → m.triple (node m (home_at table_size key) k) ≢ key
      → Before table_size m key k
      → Before table_size m key (k + 1)
  Before-next m key k ne none_yet j lt e = elim (eq_cases j k) [
    | inl same ↦ ne (ap (λ z. m.triple (node m (home_at table_size key) z)) (sym same) ∙ e)
    | inr other ↦ none_yet j (omega arith) e
  ]

  module _ (s : System) (i : ℕ) (inv : Inv table_size s) where
    abbrev m : Shared
    m = s.shared

    abbrev After : Shared → Pc → Type 0
    After m' p = Inv table_size (record { shared = m'; pc = update s.pc i p })

    -- A step that leaves the shared data, and takes no candidate.
    stay :
        (p : Pc) → Knows table_size m i p → ((c : Ptr) → Holds p c → Holds (s.pc i) c) → After m p
    stay p own kept =
        next-Inv table_size s i m p inv inv.safe (same-IsKind i (s.pc i) m) own
          (λ c h. inl (kept c h))

    abbrev at_home : Triple → ℕ
    at_home = home_at table_size

    -- A step of the locks.
    shared_lock :
        (key : Triple) (v : Bool) (p : Pc)
        → (v ≡ false) ⊎ (m.writer (at_home key) ≡ none)
        → Knows table_size (set_reading m (at_home key) i v) i p
        → ((c : Ptr) → Holds p c → ⊥)
        → After (set_reading m (at_home key) i v) p
    shared_lock key v p unlocked own none_held =
        next-Inv table_size s i _ p inv
          (set_reading-IsSafe table_size m (at_home key) i v unlocked inv.safe)
          (set_reading-IsKind table_size m (at_home key) i (s.pc i) v) own
          (λ c h. absurd (none_held c h))

    still_held : (q : Pc) (c : Ptr) → s.pc i ≡ q → Holds q c → Holds (s.pc i) c
    still_held q c at h = subst (λ z. Holds z c) (sym at) h

    -- No thread holds a cell that is not in use.
    nobody :
        (c : Ptr)
        → m.taken c ≡ false
        → (d : Ptr) → c ≡ d
        → Holds (s.pc i) d ⊎ ((j : ℕ) → Holds (s.pc j) d → ⊥)
    nobody c off d h = inr (λ j h'.
        let used = Holds-taken m j (s.pc j) d h' (inv.knows j) in
        absurd (cc (ap m.taken h, used, off)))

    -- A thread writes to its own cell, which stays its own.
    module _ (q : Pc) (at : s.pc i ≡ q) (p : Pc) (c : Ptr) (mine : Own m c) (held : Holds q c)
        (same : (d : Ptr) → Holds p d → Holds q d) where
      here : Holds (s.pc i) c
      here = still_held q c at held

      kept : (d : Ptr) → Holds p d → Holds (s.pc i) d ⊎ ((j : ℕ) → Holds (s.pc j) d → ⊥)
      kept d h = inl (still_held q d at (same d h))

      write_triple :
          (key : Triple) → Knows table_size (set_triple m c key) i p → After (set_triple m c key) p
      write_triple key own =
          next-Inv table_size s i (set_triple m c key) p inv
            (set_triple-IsSafe table_size m inv.safe c mine key)
            (set_triple-IsKind table_size m inv.safe c mine key i (s.pc i) here) own kept

      write_link : (n : Ptr) → Knows table_size (set_link m c n) i p → After (set_link m c n) p
      write_link n own =
          next-Inv table_size s i (set_link m c n) p inv
            (set_link-IsSafe table_size m inv.safe c mine n)
            (set_link-IsKind table_size m inv.safe c mine n i (s.pc i) here) own kept

    step-Inv :
        {q : Pc} {m' : Shared} {p : Pc}
        → s.pc i ≡ q
        → Knows table_size m i q
        → (mv : Move table_size i m q m' p) → IsFresh table_size mv
        → After m' p
    step-Inv at k (begin key) x = stay (finding key) tt (λ c h. absurd h)
    step-Inv at k (lock_shared {key} unlocked) x =
        shared_lock key true (searching key 0) (inr unlocked)
          (
            ap (λ g. g i)
                  (update_here m.reading (at_home key) (at_home key)
                    (update (m.reading (at_home key)) i true) refl)
                ∙ update_here (m.reading (at_home key)) i i true refl,
            omega arith,
          )
          (λ c h. h)
    step-Inv at k (hit {key} {n} lt e) x =
        shared_lock key false (done key (entry table_size m key n)) (inl refl) (n, lt, refl, e)
          (λ c h. h)
    step-Inv at k (miss {key} {n} lt ne) x =
        stay (searching key (n + 1)) (k.0, omega (arith, lt)) (λ c h. absurd h)
    step-Inv at k (not_found {key} e) x =
        shared_lock key false (allocating key) (inl refl) tt (λ c h. h)
    step-Inv at k (load_head {key} ne) x = stay (popping key m.head) ne (λ c h. absurd h)
    step-Inv at k (none_free {key} e) x = stay (slabbing key) tt (λ c h. absurd h)
    step-Inv at k (read_link {key} {p}) x = stay (linking key p (m.link p)) k (λ c h. absurd h)
    step-Inv at k (pop {key} {p} {n} top) right =
        let off = head-idle table_size m inv.safe p n k top right in
        next-Inv table_size s i (popped m p n) (taking key p) inv
          (popped-IsSafe table_size m inv.safe p n k top right)
          (taken-IsKind table_size m inv.safe p off n m.next i (s.pc i))
          (taken-Own table_size m inv.safe p off n m.next) (nobody p off)
    step-Inv at k (pop_again {key}) x = stay (allocating key) tt (λ c h. absurd h)
    step-Inv at k (unlink {key} {p}) x =
        write_link (taking key p) at (filling key p) p k refl (λ d h. h) null k
    step-Inv at k (slice {key} lt) x =
        let off = next-idle table_size m inv.safe in
        next-Inv table_size s i (sliced m) (filling key m.next) inv
          (sliced-IsSafe table_size m inv.safe)
          (taken-IsKind table_size m inv.safe m.next off m.head (m.next + 1) i (s.pc i))
          (taken-Own table_size m inv.safe m.next off m.head (m.next + 1)) (nobody m.next off)
    step-Inv at k (no_cell {key} le) x = stay (finding key) tt (λ c h. absurd h)
    step-Inv at k (fill {key} {p}) x =
        write_triple (filling key p) at (filled key p) p k refl (λ d h. h) key
          (k, update_here m.triple p p key refl)
    step-Inv at k (unlink_again {key} {p}) x =
        write_link (filled key p) at (inserting key p) p k.0 refl (λ d h. h) null k
    step-Inv at k (lock {key} {c} unlocked quiet) x =
        next-Inv table_size s i (set_writer m (at_home key) (some i)) (comparing key c 0) inv
          (set_writer-IsSafe table_size m (at_home key) i (some i) (inr quiet) inv.safe)
          (set_writer-IsKind table_size m (at_home key) i (s.pc i) (some i) (inl unlocked))
          (
            update_here m.writer (at_home key) (at_home key) (some i) refl,
            omega arith,
            λ j lt. absurd (omega arith),
            k,
          )
          (λ d h. inl (still_held (inserting key c) d at h))
    step-Inv at k (lose {key} {c} {n} lt e) x =
        next-Inv table_size s i (set_writer m (at_home key) none)
          (losing key c (entry table_size m key n)) inv
          (set_writer-IsSafe table_size m (at_home key) i none (inl refl) inv.safe)
          (set_writer-IsKind table_size m (at_home key) i (s.pc i) none (inr k.0))
          (k.3.0, (n, lt, refl, e)) (λ d h. inl (still_held (comparing key c n) d at h))
    step-Inv at k (differ {key} {c} {n} lt ne) x =
        stay (comparing key c (n + 1)) (k.0, omega (arith, lt), Before-next m key n ne k.2, k.3)
          (λ d h. still_held (comparing key c n) d at h)
    step-Inv at k (push {key} {c} {n} e) x =
        let absent = subst (Before table_size m key) e k.2 in
        next-Inv table_size s i (pushed m (at_home key) c) (counting key c) inv
          (pushed-IsSafe table_size i m key c inv.safe k.3 k.0 absent)
          (pushed-IsKind table_size i m key c inv.safe k.3 k.0 absent (s.pc i)
            (subst (λ z. Holds z c) (sym at) refl))
          (pushed-Got table_size i m key c inv.safe k.3 k.0 absent) (λ d h. absurd h)
    step-Inv at k (free {key} {c} {p}) x =
        let gone = record (m.triple c) { low = null; high = null } in
        let kind =
          set_triple-IsKind table_size m inv.safe c k.0 gone i (s.pc i)
            (still_held (losing key c p) c at refl) in
        write_triple (losing key c p) at (freeing key c p) c k.0 refl (λ d h. h) gone
          (k.0, Got-kept table_size i (s.pc i) m (cleared m c) kind key p k.1)
    step-Inv at k (load_top {key} {c} {p}) x =
        stay (pushing key c p m.head) k (λ d h. still_held (freeing key c p) d at h)
    step-Inv at k (join {key} {c} {p} {top}) x =
        write_link (pushing key c p top) at (joining key c p top) c k.0 refl (λ d h. h) top
          (k.0, k.1, update_here m.link c c top refl)
    step-Inv at k (put {key} {c} {p} {top} e) x =
        next-Inv table_size s i (given_back m c) (done key p) inv
          (given_back-IsSafe table_size m inv.safe c k.0 (k.2 ∙ sym e))
          (given_back-IsKind table_size m inv.safe c k.0 i (s.pc i)
            (still_held (joining key c p top) c at refl))
          k.1 (λ d h. absurd h)
    step-Inv at k (put_again {key} {c} {p} {top}) x =
        stay (freeing key c p) (k.0, k.1) (λ d h. still_held (joining key c p top) d at h)
    step-Inv at k (count {key} {c}) x =
        let m' : Shared = record m { node_count = m.node_count + 1 } in
        next-Inv table_size s i m' (done key c) inv
          (record {
            placed = inv.safe.placed;
            unique = inv.safe.unique;
            within = inv.safe.within;
            positive = inv.safe.positive;
            cells = inv.safe.cells;
            chain = inv.safe.chain;
            unused = inv.safe.unused;
            once = inv.safe.once;
            excluded = inv.safe.excluded;
          })
          (record {
            larger = λ b. omega arith;
            grow = λ b j lt. (lt, refl);
            triple_same = λ b j lt. refl;
            writer_same = λ b j ne w. (w, refl);
            reading_same = λ b j ne. refl;
            own = λ c k nh. (k, refl, refl);
          })
          k (λ d h. absurd h)
    step-Inv at k return x = stay idle tt (λ c h. absurd h)

  pub Reach-Inv :
      {threads : ℕ} {memory : Ptr → Triple} {s : System}
      → (r : Reach table_size threads memory s) → HasNoStalePop table_size r
      → Inv table_size s
  Reach-Inv (start first last pos) x = record {
    safe = record {
      placed = λ b j lt. absurd (omega arith);
      unique = λ b j k lt lt' e. absurd (omega arith);
      within = λ c used. absurd (cc used);
      positive = pos;
      cells = [];
      chain = refl;
      unused = λ c lt. absurd (omega arith);
      once = λ c. omega arith;
      excluded = λ b i w. absurd (cc w);
    };
    apart = λ i j c h. absurd h;
    knows = λ i. tt;
  }
  Reach-Inv (later {s} r (pick i lt mv)) (x, clean) =
      let inv = Reach-Inv r x in step-Inv s i inv refl (inv.knows i) mv clean

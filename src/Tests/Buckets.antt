-- ===== src/Tests/Buckets.antt =====
-- The lock-free bucket, at a race of two threads for one node.
use nanobdd.Base.{ℕ, ◌≡◌, ◌≢◌, arith, refl}
use nanobdd.Node.{null}
use nanobdd.LockFreeBucket.{
  Triple, load, create, push, fail, hit_new, System, pick, Reach, start, later,
}
use nanobdd.LockFreeBucket.Unique.{chain_unique}

abbrev triple : Triple
triple = record { level = 0; low = 5; high = 6 }

abbrev blank : Triple
blank = record { level = 9; low = null; high = null }

one-ne_zero : ◌≢◌ {A = ℕ} 1 0
one-ne_zero e = absurd (omega arith)

record Race : Type 0 where
  last : System
  reach : Reach (λ _. blank) last

-- Both threads find the chain empty; thread 0 wins, and thread 1 finds its node.
race : Race
race = record {
  last = _;
  reach =
      later
        (later
          (later
            (later
              (later (later (later start (pick 0 (load triple))) (pick 1 (load triple)))
                (pick 0 (create refl)))
              (pick 1 (create refl)))
            (pick 0 (push refl)))
          (pick 1 fail))
        (pick 1 (hit_new one-ne_zero refl));
}

chain_unique_example : ◌≡◌ {A = ℕ} 1 1
unfolding race
chain_unique_example =
    chain_unique race.reach 1 1 (omega arith) (omega arith) (omega arith) (omega arith) refl

-- the nodes 2 and 4 are in use

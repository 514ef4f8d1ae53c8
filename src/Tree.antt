-- ===== src/Tree.antt =====
-- The abstract specification: a node stands for a decision tree, and a tree for a Boolean function.
pub mod Canonical
pub mod Support
use nanobdd.Base.{ℕ, ◌<◌, ◌≤◌, Bool, true, false, ◌≢◌, if◌then◌else◌}

pub data Tree : Type 0 where
  leaf : Bool → Tree
  branch : ℕ → Tree → Tree → Tree

-- The values of the variables.
abbrev pub Assignment : Type 0
Assignment = ℕ → Bool

abbrev pub eval : Tree → Assignment → Bool
eval (leaf b) env = b
eval (branch v l h) env = if env v then eval h env else eval l env

-- Every variable of the tree is tested below `v`, that is, at a larger level.
abbrev pub Above : ℕ → Tree → Type 0
Above v (leaf b) = Unit
Above v (branch w l h) = v < w

-- Reduced and ordered, over the variables below `n`.
abbrev pub IsRobdd : ℕ → Tree → Type 0
IsRobdd n (leaf b) = Unit
IsRobdd n (branch v l h) = (v < n) × Above v l × Above v h × (l ≢ h) × IsRobdd n l × IsRobdd n h

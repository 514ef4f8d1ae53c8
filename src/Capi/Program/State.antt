-- ===== src/Capi/Program/State.antt =====
-- When a session and the functions of its objects agree.
use nanobdd.Base.{
  ℕ, zero, suc, ◌+◌, ◌≤◌, ◌<◌, ◌≡◌, ◌≢◌, ◌==◌, if◌then◌else◌, Option, none, some, List, [], ◌∷◌,
  ◌++◌, set, get_or, ok, at, Bool, true, false, arith, refl, sym, subst, Run, eq_cases, inl, inr,
}
use nanobdd.Node.{Ptr, null}
use nanobdd.Platform.{Platform}
use nanobdd.Table.State.{NodeTable}
use nanobdd.Table.Layout.{Stored}
use nanobdd.Table.Meaning.{Means, IsSound, terminal}
use nanobdd.Table.Cofactor.{Represents-Stored}
use nanobdd.Library.Start.{HasAll}
use nanobdd.Capi.{Object, Session, root_of}
use nanobdd.Capi.Program.{Value, Values, value_at, value_of}

pub some_injective : {A : Type 0} (a b : A) → ◌≡◌ {A = Option A} (some a) (some b) → a ≡ b
some_injective a b e = cc e

ok_injective : {A : Type 0} (a b : A) → ◌≡◌ {A = Run A} (ok a) (ok b) → a ≡ b
ok_injective a b e = cc e

-- How many objects hold the node.
abbrev pub handles : Ptr → List (Option Ptr) → ℕ
handles p [] = 0
handles p (none ∷ os) = handles p os
handles p (some q ∷ os) = (if p == q then 1 else 0) + handles p os

pub handles-append :
    (q p : Ptr) (os : List (Option Ptr))
    → handles q (os ++ some p ∷ []) ≡ handles q os + (if q == p then 1 else 0)
handles-append q p [] = omega arith
handles-append q p (none ∷ os) = handles-append q p os
handles-append q p (some r ∷ os) = omega (arith, handles-append q p os)

pub handles-set :
    (q p : Ptr) (os : List (Option Ptr)) (k : ℕ)
    → at os k ≡ ok (some p)
    → handles q (set os k none) + (if q == p then 1 else 0) ≡ handles q os
handles-set q p [] k e = absurd (cc e)
handles-set q p (none ∷ os) zero e = absurd (cc e)
handles-set q p (some r ∷ os) zero e =
    ground (arith, some_injective r p (ok_injective (some r) (some p) e))
handles-set q p (none ∷ os) (suc k) e = handles-set q p os k e
handles-set q p (some r ∷ os) (suc k) e = omega (arith, handles-set q p os k e)

module _ ⦃env : Platform⦄ (n : ℕ) where
  -- Each object holds the node of its function.
  abbrev pub Hold : NodeTable → List (Option Ptr) → Values → Type 0
  Hold t [] [] = Unit
  Hold t [] (v ∷ vs) = ⊥
  Hold t (o ∷ os) [] = ⊥
  Hold t (none ∷ os) (none ∷ vs) = Hold t os vs
  Hold t (none ∷ os) (some f ∷ vs) = ⊥
  Hold t (some p ∷ os) (none ∷ vs) = ⊥
  Hold t (some p ∷ os) (some f ∷ vs) = Means n t p f × Hold t os vs

  -- A reference count is at least what the table itself holds of the node, `pins`, and the number of
  -- its objects, and at most `limit`.
  pub record IsCounted (pins : Ptr → ℕ) (limit : ℕ) (t : NodeTable) (os : List (Option Ptr))
      : Type 0 where
    pub refs :
        (p : Ptr)
        → Stored t p
        → (pins p + handles p os ≤ (t.heap p).ref_count) × ((t.heap p).ref_count ≤ limit)
    pub pins_stored : (p : Ptr) → 0 < pins p → Stored t p
    pub false_pinned : 0 < pins t.false_node
    pub true_pinned : 0 < pins t.true_node
    pub vars_pinned : (i : ℕ) → i < n → 0 < pins (get_or t.vars i null)
    pub nvars_pinned : (i : ℕ) → i < n → 0 < pins (get_or t.nvars i null)

  -- The pins protect the terminals.
  pub counted-protected :
      (pins : Ptr → ℕ) (limit : ℕ) (t : NodeTable) (os : List (Option Ptr))
      → IsSound n t
      → IsCounted pins limit t os
      → (b : Bool) → (t.heap (terminal t b)).ref_count ≢ 0
  counted-protected pins limit t os s c true e =
      absurd (omega (arith, (c.refs t.true_node s.true_stored).0, c.true_pinned))
  counted-protected pins limit t os s c false e =
      absurd (omega (arith, (c.refs t.false_node s.false_stored).0, c.false_pinned))

  -- The session holds the functions `vs`, with slots for `room` nodes more.
  pub record Agrees (pins : Ptr → ℕ) (limit room : ℕ) (vs : Values) (s : Session) : Type 0 where
    pub table : NodeTable
    pub loaded_eq : s.library.node_table ≡ some table
    pub var_num_eq : s.library.var_num ≡ n
    pub all : HasAll n room table
    pub hold : Hold table s.objects vs
    pub counted : IsCounted pins limit table s.objects

  pub Hold-at :
      (t : NodeTable) (os : List (Option Ptr)) (vs : Values) (k : ℕ) (f : Value)
      → Hold t os vs
      → value_at vs k ≡ some f
      → (p : Ptr) × (at os k ≡ ok (some p)) × Means n t p f
  Hold-at t [] [] k f h e = absurd (cc e)
  Hold-at t [] (v ∷ vs) k f h e = absurd h
  Hold-at t (none ∷ os) [] k f h e = absurd h
  Hold-at t (some p ∷ os) [] k f h e = absurd h
  Hold-at t (none ∷ os) (none ∷ vs) zero f h e = absurd (cc e)
  Hold-at t (none ∷ os) (none ∷ vs) (suc k) f h e = Hold-at t os vs k f h e
  Hold-at t (none ∷ os) (some g ∷ vs) k f h e = absurd h
  Hold-at t (some p ∷ os) (none ∷ vs) k f h e = absurd h
  Hold-at t (some p ∷ os) (some g ∷ vs) zero f (m, h) e =
      (p, refl, subst (Means n t p) (some_injective g f e) m)
  Hold-at t (some p ∷ os) (some g ∷ vs) (suc k) f (m, h) e = Hold-at t os vs k f h e

  -- An object with a function holds its node.
  pub Hold-root :
      (t : NodeTable) (s : Session) (vs : Values) (x : Object) (f : Value)
      → Hold t s.objects vs
      → value_of vs x ≡ some f
      → (p : Ptr) × (root_of x s ≡ ok p) × Means n t p f
  unfolding root_of
  Hold-root t s vs zero f h e = absurd (cc e)
  Hold-root t s vs (suc k) f h e =
      let (p, there, m) = Hold-at t s.objects vs k f h e in (p, rw there refl, m)

  -- One object more.
  pub Hold-append :
      (t : NodeTable) (os : List (Option Ptr)) (vs : Values) (p : Ptr) (f : Value)
      → Hold t os vs
      → Means n t p f
      → Hold t (os ++ some p ∷ []) (vs ++ some f ∷ [])
  Hold-append t [] [] p f h m = (m, tt)
  Hold-append t [] (v ∷ vs) p f h m = absurd h
  Hold-append t (none ∷ os) [] p f h m = absurd h
  Hold-append t (some q ∷ os) [] p f h m = absurd h
  Hold-append t (none ∷ os) (none ∷ vs) p f h m = Hold-append t os vs p f h m
  Hold-append t (none ∷ os) (some g ∷ vs) p f h m = absurd h
  Hold-append t (some q ∷ os) (none ∷ vs) p f h m = absurd h
  Hold-append t (some q ∷ os) (some g ∷ vs) p f (k, h) m = (k, Hold-append t os vs p f h m)

  -- An object less.
  pub Hold-set :
      (t : NodeTable) (os : List (Option Ptr)) (vs : Values) (k : ℕ)
      → Hold t os vs
      → Hold t (set os k none) (set vs k none)
  Hold-set t [] [] k h = h
  Hold-set t [] (v ∷ vs) k h = absurd h
  Hold-set t (none ∷ os) [] k h = absurd h
  Hold-set t (some q ∷ os) [] k h = absurd h
  Hold-set t (none ∷ os) (none ∷ vs) zero h = h
  Hold-set t (none ∷ os) (none ∷ vs) (suc k) h = Hold-set t os vs k h
  Hold-set t (none ∷ os) (some g ∷ vs) k h = absurd h
  Hold-set t (some q ∷ os) (none ∷ vs) k h = absurd h
  Hold-set t (some q ∷ os) (some g ∷ vs) zero (m, h) = h
  Hold-set t (some q ∷ os) (some g ∷ vs) (suc k) (m, h) = (m, Hold-set t os vs k h)

  -- A table that keeps the functions of the nodes that objects hold.
  pub Hold-keep :
      (t u : NodeTable) (os : List (Option Ptr)) (vs : Values)
      → ((p : Ptr) (f : Value) → 0 < handles p os → Means n t p f → Means n u p f)
      → Hold t os vs
      → Hold u os vs
  Hold-keep t u [] [] keep h = h
  Hold-keep t u [] (v ∷ vs) keep h = absurd h
  Hold-keep t u (none ∷ os) [] keep h = absurd h
  Hold-keep t u (some q ∷ os) [] keep h = absurd h
  Hold-keep t u (none ∷ os) (none ∷ vs) keep h = Hold-keep t u os vs keep h
  Hold-keep t u (none ∷ os) (some g ∷ vs) keep h = absurd h
  Hold-keep t u (some q ∷ os) (none ∷ vs) keep h = absurd h
  Hold-keep t u (some q ∷ os) (some g ∷ vs) keep (m, h) =
      (keep q g (ground arith) m, Hold-keep t u os vs (λ p f lt k. keep p f (omega arith) k) h)

  pub Hold-Stored :
      (t : NodeTable) (os : List (Option Ptr)) (vs : Values)
      → IsSound n t
      → Hold t os vs
      → (q : Ptr) → 0 < handles q os
      → Stored t q
  Hold-Stored t [] vs s h q lt = absurd (omega arith)
  Hold-Stored t (none ∷ os) [] s h q lt = absurd h
  Hold-Stored t (some p ∷ os) [] s h q lt = absurd h
  Hold-Stored t (none ∷ os) (none ∷ vs) s h q lt = Hold-Stored t os vs s h q lt
  Hold-Stored t (none ∷ os) (some g ∷ vs) s h q lt = absurd h
  Hold-Stored t (some p ∷ os) (none ∷ vs) s h q lt = absurd h
  Hold-Stored t (some p ∷ os) (some g ∷ vs) s (m, h) q lt = elim (eq_cases q p) [
    | inl e ↦ subst (Stored t) (sym e) (Represents-Stored n t m.tree p s m.represents)
    | inr ne ↦ Hold-Stored t os vs s h q (ground (arith, ne))
  ]

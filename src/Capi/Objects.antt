-- ===== src/Capi/Objects.antt =====
-- The C interface: its null checks, the life of its objects, and what its operations return.
use nanobdd.Base.{
  ℕ, zero, suc, ◌≤◌, ◌<◌, ◌^◌, ◌≡◌, ◌≢◌, ◌⊎◌, ◌↔◌, ◌==◌, ◌&&◌, ◌||◌, Bool, true, false, Option,
  none, some, List, [], ◌∷◌, ◌++◌, length, set, Run, ok, fault, no_fuel, ◌>>=◌, at, Returns, arith,
  refl, ap,
}
use nanobdd.Tree.{Assignment}
use nanobdd.Node.{Ptr, null}
use nanobdd.Allocator.FreeList.{slots}
use nanobdd.Platform.{Platform}
use nanobdd.Table.State.{NodeTable}
use nanobdd.Table.Operations.{Op}
use nanobdd.Table.Meaning.{Means}
use nanobdd.Table.Expand.{cost}
use nanobdd.Table.Semantics.{IsValid, pointer_eq_iff}
use nanobdd.Handle.{copy, equal}
use nanobdd.Handle.Counts.{destroy-copy}
use nanobdd.Handle.Results.{Owned, and_of-Owned}
use nanobdd.Capi.{
  Object, Session, with_table, new_object, living, root_of, c_clone, c_free, c_eq, c_binary,
  c_assign, c_and,
}

module _ {ℓ} {A : Type ℓ} where
  at-append_last : (xs : List A) (x : A) → at (xs ++ x ∷ []) (length xs) ≡ ok x
  at-append_last [] x = refl
  at-append_last (y ∷ xs) x = at-append_last xs x

  at-append_left : (xs ys : List A) (k : ℕ) (x : A) → at xs k ≡ ok x → at (xs ++ ys) k ≡ ok x
  at-append_left [] ys k x e = cc
  at-append_left (y ∷ xs) ys zero x e = e
  at-append_left (y ∷ xs) ys (suc k) x e = at-append_left xs ys k x e

  set-append_last : (xs : List A) (x y : A) → set (xs ++ x ∷ []) (length xs) y ≡ xs ++ y ∷ []
  set-append_last [] x y = refl
  set-append_last (z ∷ xs) x y = ap (λ l. z ∷ l) (set-append_last xs x y)

pub root_of-ne_null : (bdd : Object) (s : Session) (p : Ptr) → root_of bdd s ≡ ok p → bdd ≢ null
unfolding root_of
root_of-ne_null zero s p e z = cc
root_of-ne_null (suc k) s p e z = absurd (omega arith)

-- A new object holds the root, and the old ones keep theirs.
new_object-root :
    (root : Ptr) (s : Session) → root_of (new_object root s).0 (new_object root s).1 ≡ ok root
unfolding new_object root_of
new_object-root root s = rw (at-append_last s.objects (some root)) refl

living-some : (run : Run (Option Ptr)) (p : Ptr) → run >>= living ≡ ok p → run ≡ ok (some p)
living-some no_fuel p e = cc
living-some fault p e = cc
living-some (ok none) p e = cc
living-some (ok (some q)) p e = cc

new_object-kept :
    (root : Ptr) (s : Session) (bdd : Object) (p : Ptr)
    → root_of bdd s ≡ ok p
    → root_of bdd (new_object root s).1 ≡ ok p
unfolding new_object root_of
new_object-kept root s zero p e = cc
new_object-kept root s (suc k) p e =
    rw (at-append_left s.objects (some root ∷ []) k (some p) (living-some (at s.objects k) p e))
      refl

loaded_new :
    (root : Ptr) (s : Session) (t : NodeTable)
    → s.library.node_table ≡ some t
    → (new_object root s).1.library.node_table ≡ some t
unfolding new_object
loaded_new root s t e = e

kept_by_table :
    (s : Session) (t : NodeTable) (bdd : Object) (p : Ptr)
    → root_of bdd s ≡ ok p
    → root_of bdd (with_table s t) ≡ ok p
unfolding root_of
kept_by_table s t zero p e = cc
kept_by_table s t (suc k) p e = e

-- With a null operand, every operator gives null and every compound assignment does nothing: the
-- session is as before.
c_binary-null :
    (op : Ptr → Ptr → Op) (lhs rhs : Object) (s : Session)
    → (lhs ≡ null) ⊎ (rhs ≡ null)
    → (c_binary op lhs rhs s ≡ ok (null, s)) × (c_assign op lhs rhs s ≡ ok s)
unfolding c_binary c_assign
c_binary-null op lhs rhs s e =
    let b : ((lhs == null) || (rhs == null)) ≡ true = ground arith in (rw b refl, rw b refl)

-- For an object that holds a root, in a loaded library where that node's count is a 32-bit number,
-- freeing a clone of the object gives back the library as it was, and the other objects.
pub c_free-clone :
    (bdd : Object) (s : Session) (root : Ptr) (t : NodeTable)
    → root_of bdd s ≡ ok root
    → s.library.node_table ≡ some t
    → (t.heap root).ref_count < 2 ^ 32
    → (c_clone bdd s >>= λ r. c_free r.0 r.1) ≡ ok (record s { objects = s.objects ++ none ∷ [] })
unfolding c_clone c_free new_object root_of
c_free-clone bdd s root t e l small =
    let copied = some (copy root t.heap).0 in
    rw
      (
        e,
        l,
        at-append_last s.objects copied,
        set-append_last s.objects copied none,
        destroy-copy t.heap root small,
        ← l,
      )
      refl

-- For two objects that hold roots, in a valid table where the roots stand for the functions `f` and
-- `g`, `nanobdd_bdd_eq` says whether the two functions are the same.
pub c_eq_iff :
    ⦃env : Platform⦄
    → (n : ℕ) (s : Session) (t : NodeTable) (free : List Ptr) (lhs rhs : Object) (p q : Ptr)
      (f g : Assignment → Bool)
    → root_of lhs s ≡ ok p
    → root_of rhs s ≡ ok q
    → IsValid n t free
    → Means n t p f
    → Means n t q g
    → Returns (c_eq lhs rhs s) (λ b. (b ≡ true) ↔ ((e : Assignment) → f e ≡ g e))
unfolding c_eq equal
c_eq_iff n s t free lhs rhs p q f g x y v a b =
    let k = root_of-ne_null lhs s p x in
    let l = root_of-ne_null rhs s q y in
    let test : ((lhs == null) || (rhs == null)) ≡ false = ground (arith, k, l) in
    let (same, agree) = pointer_eq_iff n t free p q f g v a b in
    (p == q, rw (test, x, y) refl, (λ h. same (ground arith), λ h. ground (arith, agree h)))

module _ ⦃env : Platform⦄ (n : ℕ) (s : Session) (t : NodeTable) (free : List Ptr) where
  -- The new object of an operator, and the session that it stands in.
  record Made (value : Assignment → Bool) (r : Object × Session) : Type 0 where
    pub root : Ptr
    pub table : NodeTable
    pub loaded_eq : r.1.library.node_table ≡ some table
    pub root_eq : root_of r.0 r.1 ≡ ok root
    pub owned : Owned n t free value (root, table)
    pub others : (bdd : Object) (o : Ptr) → root_of bdd s ≡ ok o → root_of bdd r.1 ≡ ok o

module _ ⦃env : Platform⦄ (n fuel : ℕ) (s : Session) (t : NodeTable) (free : List Ptr)
    (lhs rhs : Object) (p q : Ptr) (f g : Assignment → Bool) (there : s.library.node_table ≡ some t)
    (left_eq : root_of lhs s ≡ ok p) (right_eq : root_of rhs s ≡ ok q) (v : IsValid n t free)
    (a : Means n t p f) (b : Means n t q g) (deep : n < fuel)
    (room : cost n ≤ slots t.allocator free) where
  -- For two objects that hold roots, in a loaded library with a valid table, with enough fuel and free
  -- slots, `nanobdd_bdd_and` ends in a new object that holds the node of the conjunction, with one
  -- reference more; the other objects keep their roots, and the roots their functions.
  c_and-Made : Returns (c_and fuel lhs rhs s) (Made n s t free (λ e. f e && g e))
  unfolding c_and c_binary
  c_and-Made =
      let k = root_of-ne_null lhs s p left_eq in
      let l = root_of-ne_null rhs s q right_eq in
      let test : ((lhs == null) || (rhs == null)) ≡ false = ground (arith, k, l) in
      let ((root, u), run, w) = and_of-Owned n t free fuel p q f g v a b deep room in
      let s' = with_table s u in
      (
        new_object root s',
        rw (test, left_eq, right_eq, there, run) refl,
        record {
          root = root;
          table = u;
          loaded_eq = loaded_new root s' u refl;
          root_eq = new_object-root root s';
          owned = w;
          others = λ bdd o e. new_object-kept root s' bdd o (kept_by_table s u bdd o e);
        },
      )

-- ===== src/Capi/Program.antt =====
-- Programs over the C interface of src/capi.cpp, and what they mean: an object holds a Boolean
-- function. Left out are the compound assignments and `nanobdd_bdd_imp`, which do not do what their
-- names say.
pub mod State
pub mod Grow
pub mod Runs
pub mod Shrink
pub mod Refine
pub mod Correct
use nanobdd.Base.{
  ℕ, zero, suc, ◌+◌, ◌-◌, ltb, if◌then◌else◌, Bool, true, false, not, ◌&&◌, ◌||◌, Option, none,
  some, List, [], ◌∷◌, ◌++◌, set, Run, ok, ◌>>=◌,
}
use mathlib.Core.Bool.{xor}
use nanobdd.Tree.{Assignment}
use nanobdd.Platform.{Platform}
use nanobdd.Capi.{
  Object, Session, c_false, c_true, c_get_var, c_get_nvar, c_clone, c_free, c_and, c_or, c_xor,
  c_diff, c_not, c_gc,
}

-- A call of the C interface, with its operands.
pub data Command : Type 0 where
  get_false get_true gc : Command
  get_var get_nvar : (id : ℕ) → Command
  clone free negate : (x : Object) → Command
  and or exclusive_or diff : (x y : Object) → Command

-- What the calls do to the session; a new object is the next number.
module _ ⦃env : Platform⦄ (fuel : ℕ) where
  unfoldable pub execute : Command → Session → Run Session
  execute get_false s = c_false s >>= λ r. ok r.1
  execute get_true s = c_true s >>= λ r. ok r.1
  execute (get_var id) s = c_get_var id s >>= λ r. ok r.1
  execute (get_nvar id) s = c_get_nvar id s >>= λ r. ok r.1
  execute (clone x) s = c_clone x s >>= λ r. ok r.1
  execute (free x) s = c_free x s
  execute (negate x) s = c_not fuel x s >>= λ r. ok r.1
  execute (and x y) s = c_and fuel x y s >>= λ r. ok r.1
  execute (or x y) s = c_or fuel x y s >>= λ r. ok r.1
  execute (exclusive_or x y) s = c_xor fuel x y s >>= λ r. ok r.1
  execute (diff x y) s = c_diff fuel x y s >>= λ r. ok r.1
  execute gc s = c_gc s

  unfoldable pub run_program : List Command → Session → Run Session
  run_program [] s = ok s
  run_program (c ∷ cs) s = execute c s >>= λ s1. run_program cs s1

-- The specification: the functions of the objects; `none` is an object that has been freed.
abbrev pub Value : Type 0
Value = Assignment → Bool

abbrev pub Values : Type 0
Values = List (Option Value)

abbrev pub bind : {A B : Type 0} → Option A → (A → Option B) → Option B
bind none next = none
bind (some a) next = next a

abbrev pub value_at : Values → ℕ → Option Value
value_at [] k = none
value_at (v ∷ vs) zero = v
value_at (v ∷ vs) (suc k) = value_at vs k

abbrev pub value_of : Values → Object → Option Value
value_of vs zero = none
value_of vs (suc k) = value_at vs k

abbrev pub append : Values → Value → Option Values
append vs f = some (vs ++ some f ∷ [])

-- The functions after the call, over `n` variables; `none` if an operand is not there.
abbrev pub denote : ℕ → Command → Values → Option Values
denote n get_false vs = append vs (λ e. false)
denote n get_true vs = append vs (λ e. true)
denote n gc vs = some vs
denote n (get_var id) vs = if ltb id n then append vs (λ e. e id) else none
denote n (get_nvar id) vs = if ltb id n then append vs (λ e. not (e id)) else none
denote n (clone x) vs = bind (value_of vs x) (λ f. append vs f)
denote n (free x) vs = bind (value_of vs x) (λ f. some (set vs (x - 1) none))
denote n (negate x) vs = bind (value_of vs x) (λ f. append vs (λ e. not (f e)))
denote n (and x y) vs =
    bind (value_of vs x) (λ f. bind (value_of vs y) (λ g. append vs (λ e. f e && g e)))
denote n (or x y) vs =
    bind (value_of vs x) (λ f. bind (value_of vs y) (λ g. append vs (λ e. f e || g e)))
denote n (exclusive_or x y) vs =
    bind (value_of vs x) (λ f. bind (value_of vs y) (λ g. append vs (λ e. xor (f e) (g e))))
denote n (diff x y) vs =
    bind (value_of vs x) (λ f. bind (value_of vs y) (λ g. append vs (λ e. f e && not (g e))))

unfoldable pub denote_all : ℕ → List Command → Values → Option Values
denote_all n [] vs = some vs
denote_all n (c ∷ cs) vs = bind (denote n c vs) (λ ws. denote_all n cs ws)

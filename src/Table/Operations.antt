-- ===== src/Table/Operations.antt =====
-- `bddAnd`, `bddOr`, `bddNot`, `bddXor`, `bddDiff`, `bddImp`. The code that they share, from the
-- minimum of the levels to the return, is `expand`; each has its early returns in a function of its
-- own. The recursion is on fuel.
use nanobdd.Base.{
  ℕ, zero, suc, ◌%◌, min, ◌||◌, ◌==◌, ltb, if◌then◌else◌, Option, none, some, length, Run, ok,
  no_fuel, ◌>>=◌,
}
use nanobdd.Hash.{hash_o_3, hash_uo_o_3}
use nanobdd.Node.{Ptr, null, load}
use nanobdd.Cache.{Operator, code, lookup, insert}
use nanobdd.Platform.{Platform}
use nanobdd.Table.State.{NodeTable, is_false, is_true}
use nanobdd.Table.Create.{combine}

abbrev pub Op : Type 0
Op = NodeTable → Run (Ptr × NodeTable)

unfoldable pub neg_cof : NodeTable → Ptr → ℕ → Run Ptr
neg_cof t x id = do n ← load t.heap x; ok (if ltb id n.level then x else n.low)

unfoldable pub pos_cof : NodeTable → Ptr → ℕ → Run Ptr
pos_cof t x id = do n ← load t.heap x; ok (if ltb id n.level then x else n.high)

module _ ⦃env : Platform⦄ where
  -- `HASH_UO_O_3(x, y, op)` and `HASH_O_3(x, y, op)`
  unfoldable pub unordered : Operator → Ptr → Ptr → ℕ
  unordered op x y = hash_uo_o_3 (env.address x) (env.address y) (code op)

  unfoldable pub ordered : Operator → Ptr → Ptr → ℕ
  ordered op x y = hash_o_3 (env.address x) (env.address y) (code op)

  -- the two recursive calls, `combine`, and the entry in the cache
  unfoldable pub recurse : Operator → ℕ → (Ptr → Ptr → Op) → ℕ → Ptr → Ptr → Op
  recurse op hash rec m x y t = do
    x0 ← neg_cof t x m
    y0 ← neg_cof t y m
    (f_low, t1) ← rec x0 y0 t
    x1 ← pos_cof t1 x m
    y1 ← pos_cof t1 y m
    (f_high, t2) ← rec x1 y1 t1
    (res, t3) ← combine m f_low f_high t2
    cache ← insert t3.cache hash res x y op
    ok (res, record t3 { cache = cache })

  unfoldable pub expand : Operator → (Ptr → Ptr → ℕ) → (Ptr → Ptr → Op) → Ptr → Ptr → Op
  expand op key rec x y t = do
    nx ← load t.heap x
    ny ← load t.heap y
    let m = min nx.level ny.level
    let hash = key x y % length t.cache
    cached ← lookup t.cache hash x y op
    if cached == null then recurse op hash rec m x y t else ok (cached, t)

  abbrev pub returning : Option Ptr → Op → Op
  returning none rest t = rest t
  returning (some p) rest t = ok (p, t)

-- The early returns.
unfoldable pub and_shortcut : NodeTable → Ptr → Ptr → Option Ptr
and_shortcut t x y =
    if x == y
    then some x
    else if is_false t x || is_false t y
    then some t.false_node
    else if is_true t x
    then some y
    else if is_true t y
    then some x
    else none

unfoldable pub or_shortcut : NodeTable → Ptr → Ptr → Option Ptr
or_shortcut t x y =
    if x == y
    then some x
    else if is_true t x || is_true t y
    then some t.true_node
    else if is_false t x
    then some y
    else if is_false t y
    then some x
    else none

unfoldable pub xor_shortcut : NodeTable → Ptr → Ptr → Option Ptr
xor_shortcut t x y =
    if x == y
    then some t.false_node
    else if is_false t x
    then some y
    else if is_false t y
    then some x
    else none

unfoldable pub diff_shortcut : NodeTable → Ptr → Ptr → Option Ptr
diff_shortcut t x y =
    if (x == y) || is_false t x || is_true t y
    then some t.false_node
    else if is_false t y
    then some x
    else none

unfoldable pub imp_shortcut : NodeTable → Ptr → Ptr → Option Ptr
imp_shortcut t x y =
    if is_false t x || is_true t y then some t.true_node else if is_true t x then some y else none

unfoldable pub not_shortcut : NodeTable → Ptr → Option Ptr
not_shortcut t x =
    if is_true t x then some t.false_node else if is_false t x then some t.true_node else none

module _ ⦃env : Platform⦄ where
  unfoldable pub bdd_and : ℕ → Ptr → Ptr → Op
  bdd_and zero x y t = no_fuel
  bdd_and (suc fuel) x y t =
      returning (and_shortcut t x y)
        (expand Operator.and (unordered Operator.and) (bdd_and fuel) x y) t

  unfoldable pub bdd_or : ℕ → Ptr → Ptr → Op
  bdd_or zero x y t = no_fuel
  bdd_or (suc fuel) x y t =
      returning (or_shortcut t x y) (expand Operator.or (unordered Operator.or) (bdd_or fuel) x y) t

  unfoldable pub bdd_xor : ℕ → Ptr → Ptr → Op
  bdd_xor zero x y t = no_fuel
  bdd_xor (suc fuel) x y t =
      returning (xor_shortcut t x y)
        (expand Operator.xor (unordered Operator.xor) (bdd_xor fuel) x y) t

  unfoldable pub bdd_diff : ℕ → Ptr → Ptr → Op
  bdd_diff zero x y t = no_fuel
  bdd_diff (suc fuel) x y t =
      returning (diff_shortcut t x y)
        (expand Operator.diff (ordered Operator.diff) (bdd_diff fuel) x y) t

  -- the recursive calls are of `bddDiff`
  unfoldable pub bdd_imp : ℕ → Ptr → Ptr → Op
  bdd_imp fuel x y t =
      returning (imp_shortcut t x y)
        (expand Operator.imp (ordered Operator.imp) (bdd_diff fuel) x y) t

  -- `bddNot` after its early returns
  unfoldable pub expand_not : (Ptr → Op) → Ptr → Op
  expand_not rec x t = do
    let hash = hash_uo_o_3 (env.address x) 0 (code Operator.neg) % length t.cache
    cached ← lookup t.cache hash x null Operator.neg
    let computed = (do
      nx ← load t.heap x
      x0 ← neg_cof t x nx.level
      (f_low, t1) ← rec x0 t
      x1 ← pos_cof t1 x nx.level
      (f_high, t2) ← rec x1 t1
      (res, t3) ← combine nx.level f_low f_high t2
      cache ← insert t3.cache hash res x null Operator.neg
      ok (res, record t3 { cache = cache }))
    if cached == null then computed else ok (cached, t)

  unfoldable pub bdd_not : ℕ → Ptr → Op
  bdd_not zero x t = no_fuel
  bdd_not (suc fuel) x t = returning (not_shortcut t x) (expand_not (bdd_not fuel) x) t

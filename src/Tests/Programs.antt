-- ===== src/Tests/Programs.antt =====
-- The theorem on programs, at a law of De Morgan with a free and a collection on the way.
use nanobdd.Base.{
  ◌≡◌, ◌↔◌, ◌&&◌, ◌||◌, ◌>>=◌, true, not, none, some, List, [], ◌∷◌, Returns, arith, refl,
}
use nanobdd.Tree.{Assignment}
use nanobdd.Capi.{c_eq}
use nanobdd.Capi.Program.{Command, Values, get_var, negate, and, or, free, gc, denote_all}
use nanobdd.Capi.Program.Correct.{started_run, program-Refines}
use nanobdd.Tests.Sample.{bump, bump-IsSane, memory}

abbrev commands : List Command
commands =
    get_var 0 ∷ get_var 1 ∷ negate 1 ∷ negate 2 ∷ and 3 4 ∷ free 3 ∷ gc ∷ or 1 2 ∷ negate 6 ∷ []

abbrev values : Values
values =
    some (λ e. e 0)
    ∷ some (λ e. e 1)
    ∷ none
    ∷ some (λ e. not (e 1))
    ∷ some (λ e. not (e 0) && not (e 1))
    ∷ some (λ e. e 0 || e 1)
    ∷ some (λ e. not (e 0 || e 1))
    ∷ []

commands_denote : denote_all 2 commands [] ≡ some values
unfolding denote_all
commands_denote = refl

program-Refines_example :
    Returns
      (started_run memory 20 15 2 3 commands >>= λ s. c_eq 5 7 s)
      (λ b. (b ≡ true) ↔ ((e : Assignment) → not (e 0) && not (e 1) ≡ not (e 0 || e 1)))
program-Refines_example =
    program-Refines bump-IsSane memory (λ p. refl) 20 15 2 3 (omega arith) (omega arith)
      (omega arith) commands values commands_denote (omega arith) (omega arith) 5 7
      (λ e. not (e 0) && not (e 1)) (λ e. not (e 0 || e 1)) refl refl

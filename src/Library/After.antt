-- ===== src/Library/After.antt =====
-- What a change of the table has to keep, for the library to stay ready.
use nanobdd.Base.{
  ℕ, ◌≤◌, ◌≡◌, ◌≢◌, Bool, true, false, not, List, length, get_or, ap, sym, subst, ◌∙◌,
}
use nanobdd.Node.{Ptr, null}
use nanobdd.Allocator.FreeList.{slots}
use nanobdd.Platform.{Platform}
use nanobdd.Table.State.{NodeTable}
use nanobdd.Table.Meaning.{Means, terminal, terminal-Stored}
use nanobdd.Table.After.{IsAfter}
use nanobdd.Table.Semantics.{IsValid}
use nanobdd.Library.Start.{HasAll}

module _ ⦃env : Platform⦄ (n : ℕ) where
  pub terminal_after : (t u : NodeTable) → IsAfter n t u → (b : Bool) → terminal u b ≡ terminal t b
  terminal_after t u w true = w.true_same
  terminal_after t u w false = w.false_same

  module _ (room more : ℕ) (t u : NodeTable) (all : HasAll n more t) (w : IsAfter n t u)
      (left : List Ptr) (valid : IsValid n u left) where
    pub after-HasAll :
        ((b : Bool) → (u.heap (terminal u b)).ref_count ≢ 0)
        → room ≤ slots u.allocator left
        → HasAll n room u
    after-HasAll protected enough = record {
      left = left;
      laid = valid.laid;
      sound = valid.sound;
      tidy = record {
        unmarked = w.unmarked all.tidy.unmarked;
        protected = protected;
        no_low = λ b.
            ap (λ q. (u.heap q).low) (terminal_after t u w b)
            ∙ w.low_same _ (terminal-Stored n t all.sound b)
            ∙ all.tidy.no_low b;
        no_high = λ b.
            ap (λ q. (u.heap q).high) (terminal_after t u w b)
            ∙ w.high_same _ (terminal-Stored n t all.sound b)
            ∙ all.tidy.no_high b;
      };
      has_vars = record {
        vars_length = ap length w.vars ∙ all.has_vars.vars_length;
        nvars_length = ap length w.nvars ∙ all.has_vars.nvars_length;
        vars_mean = λ i lt.
            subst (λ l. Means n u (get_or l i null) (λ e. e i)) (sym w.vars)
              (w.keeps _ _ (all.has_vars.vars_mean i lt));
        nvars_mean = λ i lt.
            subst (λ l. Means n u (get_or l i null) (λ e. not (e i))) (sym w.nvars)
              (w.keeps _ _ (all.has_vars.nvars_mean i lt));
      };
      free_slots = enough;
    }

-- ===== src/Table/Tidy.antt =====
-- Getting a node and counting a reference keep a table ready for the next collection.
use nanobdd.Base.{ℕ, ◌≡◌, ◌≢◌, Bool, true, false, List, arith, sym, ap, ◌∙◌}
use nanobdd.Node.{Ptr, Heap, ref}
use nanobdd.Platform.{Platform}
use nanobdd.Table.State.{NodeTable}
use nanobdd.Table.Layout.{Extends}
use nanobdd.Table.Creation.{Created}
use nanobdd.Table.Meaning.{IsSound, terminal}
use nanobdd.Table.Marked.{IsTidy}

module _ ⦃env : Platform⦄ (n : ℕ) (t : NodeTable) (s : IsSound n t) (d : IsTidy t) where
  terminal-Extends :
      (u : NodeTable) (b : Bool) → Extends t u → u.heap (terminal u b) ≡ t.heap (terminal t b)
  terminal-Extends u true x = ap u.heap x.true_same ∙ x.same t.true_node s.true_stored
  terminal-Extends u false x = ap u.heap x.false_same ∙ x.same t.false_node s.false_stored

  pub Extends-IsTidy :
      (u : NodeTable) → Extends t u → ((p : Ptr) → (u.heap p).in_use ≡ false) → IsTidy u
  Extends-IsTidy u x clean = record {
    unmarked = clean;
    protected = λ b e. d.protected b (sym (ap (λ k. k.ref_count) (terminal-Extends u b x)) ∙ e);
    no_low = λ b. ap (λ k. k.low) (terminal-Extends u b x) ∙ d.no_low b;
    no_high = λ b. ap (λ k. k.high) (terminal-Extends u b x) ∙ d.no_high b;
  }

  pub Created-IsTidy :
      (free : List Ptr) (level : ℕ) (low high : Ptr) (r : Ptr × NodeTable)
      → Created t free level low high r
      → IsTidy r.1
  Created-IsTidy free level low high r c = Extends-IsTidy r.1 c.extends (c.unmarked d.unmarked)

module _ (h : Heap) (p : Ptr) where
  ref-in_use : (q : Ptr) → (ref h p q).in_use ≡ (h q).in_use
  unfolding ref
  ref-in_use q = ground arith

  ref_others : (q : Ptr) → q ≢ p → ref h p q ≡ h q
  unfolding ref
  ref_others q n = ground (arith, n)

module _ ⦃env : Platform⦄ (t : NodeTable) (d : IsTidy t) (p : Ptr) (vars nvars : List Ptr)
    (inner : (b : Bool) → terminal t b ≢ p) where
  abbrev counted : NodeTable
  counted = record t { heap = ref t.heap p; vars = vars; nvars = nvars }

  terminal_same : (b : Bool) → counted.heap (terminal counted b) ≡ t.heap (terminal t b)
  terminal_same b = ref_others t.heap p (terminal t b) (inner b)

  pub ref-IsTidy : IsTidy counted
  ref-IsTidy = record {
    unmarked = λ q. ref-in_use t.heap p q ∙ d.unmarked q;
    protected = λ b e. d.protected b (sym (ap (λ k. k.ref_count) (terminal_same b)) ∙ e);
    no_low = λ b. ap (λ k. k.low) (terminal_same b) ∙ d.no_low b;
    no_high = λ b. ap (λ k. k.high) (terminal_same b) ∙ d.no_high b;
  }

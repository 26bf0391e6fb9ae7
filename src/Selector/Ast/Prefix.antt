-- ===== src/Selector/Ast/Prefix.antt =====
-- What a prefix does to a selector.
use mathlib.Core.Bool.{not}
use zyzxlibcalico_go.Prelude.{◌≡◌, refl, ap, Option, none, some, [], ◌++◌, arith}
use zyzxlibcalico_go.Prelude.Options.{>>=-eq-some}
use zyzxlibcalico_go.Selector.Text.{Text}
use zyzxlibcalico_go.Selector.Ast.{
  Node, Nodes, label_eq_value, label_ne_value, label_contains_value, label_starts_with_value,
  label_ends_with_value, label_in_set, label_not_in_set, has_label, not_node, and_node, or_node,
  all_node, global_node, none_left, cons_node, Labels, evaluate, every, any, visit, visit_all,
  SelectorRoot, string, string_or, accept_visitor, evaluate_labels, collect_fragments,
}

mutual
  unfolding evaluate every any visit visit_all

  evaluate-visit :
      (prefix : Text) (n : Node) (labels : Labels)
      → evaluate (visit prefix n) labels ≡ evaluate n (λ name. labels (prefix ++ name))
  evaluate-visit prefix (label_eq_value name v) labels = refl
  evaluate-visit prefix (label_ne_value name v) labels = refl
  evaluate-visit prefix (label_contains_value name v) labels = refl
  evaluate-visit prefix (label_starts_with_value name v) labels = refl
  evaluate-visit prefix (label_ends_with_value name v) labels = refl
  evaluate-visit prefix (label_in_set name set) labels = refl
  evaluate-visit prefix (label_not_in_set name set) labels = refl
  evaluate-visit prefix (has_label name) labels = refl
  evaluate-visit prefix (not_node n) labels = ap not (evaluate-visit prefix n labels)
  evaluate-visit prefix (and_node ns) labels = every-visit_all prefix ns labels
  evaluate-visit prefix (or_node ns) labels = any-visit_all prefix ns labels
  evaluate-visit prefix all_node labels = refl
  evaluate-visit prefix global_node labels = refl

  every-visit_all :
      (prefix : Text) (ns : Nodes) (labels : Labels)
      → every (visit_all prefix ns) labels ≡ every ns (λ name. labels (prefix ++ name))
  every-visit_all prefix none_left labels = refl
  every-visit_all prefix (cons_node n ns) labels =
      rw (evaluate-visit prefix n labels) (rw (every-visit_all prefix ns labels) refl)

  any-visit_all :
      (prefix : Text) (ns : Nodes) (labels : Labels)
      → any (visit_all prefix ns) labels ≡ any ns (λ name. labels (prefix ++ name))
  any-visit_all prefix none_left labels = refl
  any-visit_all prefix (cons_node n ns) labels =
      rw (evaluate-visit prefix n labels) (rw (any-visit_all prefix ns labels) refl)

-- A selector whose label names were given a prefix says of labels what the selector says of the
-- labels with that prefix, taken without it.
pub evaluate_labels-accept_visitor :
    (prefix : Text) (sel : SelectorRoot) (labels : Labels)
    → evaluate_labels (accept_visitor prefix sel) labels
      ≡ evaluate_labels sel (λ name. labels (prefix ++ name))
unfolding evaluate_labels accept_visitor
evaluate_labels-accept_visitor prefix sel labels = evaluate-visit prefix sel.root labels

string_or-cached :
    (o : Option Text) (sel sel' : SelectorRoot) (s : Text)
    → sel.cached_string ≡ o
    → string_or o sel ≡ some (s, sel')
    → sel'.cached_string ≡ some s
string_or-cached (some t) sel sel' s e h = ground arith
string_or-cached none sel sel' s e h =
    let (fs, collected, same) = >>=-eq-some (collect_fragments sel.root []) _ h in ground arith

-- The text of a selector that was asked for its text before stays the same when a visitor puts a
-- prefix before its label names.
pub string-accept_visitor :
    (prefix : Text) (sel sel' : SelectorRoot) (s : Text)
    → string sel ≡ some (s, sel')
    → string (accept_visitor prefix sel') ≡ some (s, accept_visitor prefix sel')
unfolding string accept_visitor
string-accept_visitor prefix sel sel' s h =
    rw (string_or-cached sel.cached_string sel sel' s refl h) refl

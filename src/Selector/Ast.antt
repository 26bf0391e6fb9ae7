-- ===== src/Selector/Ast.antt =====
-- lib/selector/parser/ast.go: the nodes of a selector, what they say of labels, the visitor that puts a
-- prefix before label names, and the text of a selector.
pub mod Prefix
pub mod Fragments
use mathlib.Core.Bool.{not}
use zyzxlibcalico_go.Prelude.{
  ℕ, Bool, true, false, ◌&&◌, ◌||◌, Option, none, some, List, [], ◌∷◌, ◌++◌, if◌then◌else◌,
}
use zyzxlibcalico_go.Prelude.Options.{◌>>=◌}
use zyzxlibcalico_go.Selector.Text.{Text, text_eq, has_prefix, has_suffix, contains_text}
use zyzxlibcalico_go.Selector.Tokenizer.{bytes}
use zyzxlibcalico_go.Selector.StringSet.{StringSet, contains}

mutual
  pub data Node : Type 0 where
    label_eq_value label_ne_value label_contains_value : Text → Text → Node
    label_starts_with_value label_ends_with_value : Text → Text → Node
    label_in_set label_not_in_set : Text → StringSet → Node
    has_label : Text → Node
    not_node : Node → Node
    and_node or_node : Nodes → Node
    all_node global_node : Node

  pub data Nodes : Type 0 where
    none_left : Nodes
    cons_node : Node → Nodes → Nodes

-- Get of the Labels interface.
abbrev pub Labels : Type 0
Labels = Text → Option Text

-- What a node says of the label's value, and of a label that is missing.
abbrev pub value_test : Bool → (Text → Bool) → Option Text → Bool
value_test missing test none = missing
value_test missing test (some val) = test val

unfoldable mutual
  pub evaluate : Node → Labels → Bool
  evaluate (label_eq_value name v) labels = value_test false (λ val. text_eq val v) (labels name)
  evaluate (label_ne_value name v) labels =
      value_test true (λ val. not (text_eq val v)) (labels name)
  evaluate (label_contains_value name v) labels =
      value_test false (λ val. contains_text val v) (labels name)
  evaluate (label_starts_with_value name v) labels =
      value_test false (λ val. has_prefix val v) (labels name)
  evaluate (label_ends_with_value name v) labels =
      value_test false (λ val. has_suffix val v) (labels name)
  evaluate (label_in_set name set) labels = value_test false (λ val. contains set val) (labels name)
  evaluate (label_not_in_set name set) labels =
      value_test true (λ val. not (contains set val)) (labels name)
  evaluate (has_label name) labels = value_test false (λ val. true) (labels name)
  evaluate (not_node n) labels = not (evaluate n labels)
  evaluate (and_node ns) labels = every ns labels
  evaluate (or_node ns) labels = any ns labels
  evaluate all_node labels = true
  evaluate global_node labels = true

  -- The loops over the operands.
  pub every : Nodes → Labels → Bool
  every none_left labels = true
  every (cons_node n ns) labels =
      let rest = every ns labels in if not (evaluate n labels) then false else rest

  pub any : Nodes → Labels → Bool
  any none_left labels = false
  any (cons_node n ns) labels = let rest = any ns labels in if evaluate n labels then true else rest

-- AcceptVisitor with the PrefixVisitor.
unfoldable mutual
  pub visit : Text → Node → Node
  visit prefix (label_eq_value name v) = label_eq_value (prefix ++ name) v
  visit prefix (label_ne_value name v) = label_ne_value (prefix ++ name) v
  visit prefix (label_contains_value name v) = label_contains_value (prefix ++ name) v
  visit prefix (label_starts_with_value name v) = label_starts_with_value (prefix ++ name) v
  visit prefix (label_ends_with_value name v) = label_ends_with_value (prefix ++ name) v
  visit prefix (label_in_set name set) = label_in_set (prefix ++ name) set
  visit prefix (label_not_in_set name set) = label_not_in_set (prefix ++ name) set
  visit prefix (has_label name) = has_label (prefix ++ name)
  visit prefix (not_node n) = not_node (visit prefix n)
  visit prefix (and_node ns) = and_node (visit_all prefix ns)
  visit prefix (or_node ns) = or_node (visit_all prefix ns)
  visit prefix all_node = all_node
  visit prefix global_node = global_node

  pub visit_all : Text → Nodes → Nodes
  visit_all prefix none_left = none_left
  visit_all prefix (cons_node n ns) = cons_node (visit prefix n) (visit_all prefix ns)

-- The quote that goes round a value.
abbrev pub quote : Text → Text
quote s = if contains_text s (bytes "\"") then bytes "'" else bytes "\""

-- appendLabelOpAndQuotedString
unfoldable pub append_label_op_and_quoted_string : List Text → Text → Text → Text → List Text
append_label_op_and_quoted_string fragments name op s =
    fragments ++ name ∷ op ∷ quote s ∷ s ∷ quote s ∷ []

-- The loop of collectInOpFragments over the values.
unfoldable pub set_fragments : Bool → List Text → StringSet → List Text
set_fragments first fragments [] = fragments
set_fragments first fragments (s ∷ values) =
    let fragments = if first then fragments else fragments ++ bytes ", " ∷ [] in
    set_fragments false (fragments ++ quote s ∷ s ∷ quote s ∷ []) values

unfoldable pub collect_in_op_fragments : List Text → Text → Text → StringSet → List Text
collect_in_op_fragments fragments name op values =
    set_fragments true (fragments ++ name ∷ bytes " " ∷ op ∷ bytes " {" ∷ []) values
    ++ bytes "}" ∷ []

-- collectFragments; `none` is the index out of range of an operator without operands.
unfoldable mutual
  pub collect_fragments : Node → List Text → Option (List Text)
  collect_fragments (label_eq_value name v) fs =
      some (append_label_op_and_quoted_string fs name (bytes " == ") v)
  collect_fragments (label_ne_value name v) fs =
      some (append_label_op_and_quoted_string fs name (bytes " != ") v)
  collect_fragments (label_contains_value name v) fs =
      some (append_label_op_and_quoted_string fs name (bytes " contains ") v)
  collect_fragments (label_starts_with_value name v) fs =
      some (append_label_op_and_quoted_string fs name (bytes " starts with ") v)
  collect_fragments (label_ends_with_value name v) fs =
      some (append_label_op_and_quoted_string fs name (bytes " ends with ") v)
  collect_fragments (label_in_set name set) fs =
      some (collect_in_op_fragments fs name (bytes "in") set)
  collect_fragments (label_not_in_set name set) fs =
      some (collect_in_op_fragments fs name (bytes "not in") set)
  collect_fragments (has_label name) fs = some (fs ++ bytes "has(" ∷ name ∷ bytes ")" ∷ [])
  collect_fragments (not_node n) fs = collect_fragments n (fs ++ bytes "!" ∷ [])
  collect_fragments (and_node ns) fs = collect_operands (bytes " && ") ns fs
  collect_fragments (or_node ns) fs = collect_operands (bytes " || ") ns fs
  collect_fragments all_node fs = some (fs ++ bytes "all()" ∷ [])
  collect_fragments global_node fs = some (fs ++ bytes "global()" ∷ [])

  pub collect_operands : Text → Nodes → List Text → Option (List Text)
  collect_operands op none_left fs = none
  collect_operands op (cons_node n ns) fs = do
    fs ← collect_fragments n (fs ++ bytes "(" ∷ [])
    fs ← collect_rest op ns fs
    some (fs ++ bytes ")" ∷ [])

  pub collect_rest : Text → Nodes → List Text → Option (List Text)
  collect_rest op none_left fs = some fs
  collect_rest op (cons_node n ns) fs = do
    fs ← collect_fragments n (fs ++ op ∷ [])
    collect_rest op ns fs

pub record SelectorRoot : Type 0 where
  pub root : Node
  pub cached_string : Option Text

-- strings.Join(fragments, "")
unfoldable pub joined : List Text → Text
joined [] = []
joined (f ∷ fs) = f ++ joined fs

abbrev pub string_or : Option Text → SelectorRoot → Option (Text × SelectorRoot)
string_or (some s) sel = some (s, sel)
string_or none sel = do
  fs ← collect_fragments sel.root []
  some (joined fs, record sel { cached_string = some (joined fs) })

-- String
unfoldable pub string : SelectorRoot → Option (Text × SelectorRoot)
string sel = string_or sel.cached_string sel

-- AcceptVisitor, with the PrefixVisitor
unfoldable pub accept_visitor : Text → SelectorRoot → SelectorRoot
accept_visitor prefix sel = record sel { root = visit prefix sel.root }

-- EvaluateLabels
unfoldable pub evaluate_labels : SelectorRoot → Labels → Bool
evaluate_labels sel labels = evaluate sel.root labels

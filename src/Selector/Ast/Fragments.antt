-- ===== src/Selector/Ast/Fragments.antt =====
-- The text of a selector, written down without the list of fragments.
use mathlib.Core.List.{append_assoc, append-nil}
use zyzxlibcalico_go.Prelude.{
  ◌≡◌, refl, sym, ap, ◌∙◌, false, Option, none, some, List, [], ◌∷◌, ◌++◌,
}
use zyzxlibcalico_go.Prelude.Options.{◌>>=◌}
use zyzxlibcalico_go.Selector.Text.{Text}
use zyzxlibcalico_go.Selector.StringSet.{StringSet}
use zyzxlibcalico_go.Selector.Tokenizer.{bytes}
use zyzxlibcalico_go.Selector.Ast.{
  Node, Nodes, label_eq_value, label_ne_value, label_contains_value, label_starts_with_value,
  label_ends_with_value, label_in_set, label_not_in_set, has_label, not_node, and_node, or_node,
  all_node, global_node, none_left, cons_node, quote, append_label_op_and_quoted_string,
  set_fragments, collect_in_op_fragments, collect_fragments, collect_operands, collect_rest, joined,
  string,
}

abbrev pub quoted_text : Text → Text
quoted_text s = quote s ++ (s ++ quote s)

-- The values of a set behind the first, and all of them.
abbrev more_values : StringSet → Text
more_values [] = []
more_values (s ∷ values) = bytes ", " ++ (quoted_text s ++ more_values values)

abbrev all_values : StringSet → Text
all_values [] = []
all_values (s ∷ values) = quoted_text s ++ more_values values

abbrev pub operation_text : Text → Text → Text → Text
operation_text name op v = name ++ (op ++ quoted_text v)

abbrev pub set_text : Text → Text → StringSet → Text
set_text name op values =
    name ++ (bytes " " ++ (op ++ (bytes " {" ++ (all_values values ++ bytes "}"))))

mutual
  pub text_of : Node → Text
  text_of (label_eq_value name v) = operation_text name (bytes " == ") v
  text_of (label_ne_value name v) = operation_text name (bytes " != ") v
  text_of (label_contains_value name v) = operation_text name (bytes " contains ") v
  text_of (label_starts_with_value name v) = operation_text name (bytes " starts with ") v
  text_of (label_ends_with_value name v) = operation_text name (bytes " ends with ") v
  text_of (label_in_set name set) = set_text name (bytes "in") set
  text_of (label_not_in_set name set) = set_text name (bytes "not in") set
  text_of (has_label name) = bytes "has(" ++ (name ++ bytes ")")
  text_of (not_node n) = bytes "!" ++ text_of n
  text_of (and_node ns) = bytes "(" ++ (operands_text (bytes " && ") ns ++ bytes ")")
  text_of (or_node ns) = bytes "(" ++ (operands_text (bytes " || ") ns ++ bytes ")")
  text_of all_node = bytes "all()"
  text_of global_node = bytes "global()"

  -- The operands with the operator between them.
  pub operands_text : Text → Nodes → Text
  operands_text op none_left = []
  operands_text op (cons_node n ns) = text_of n ++ rest_text op ns

  pub rest_text : Text → Nodes → Text
  rest_text op none_left = []
  rest_text op (cons_node n ns) = (op ++ text_of n) ++ rest_text op ns

-- Every operator has an operand.
unfoldable mutual
  pub IsPrintable : Node → Type 0
  IsPrintable (not_node n) = IsPrintable n
  IsPrintable (and_node none_left) = ⊥
  IsPrintable (and_node (cons_node n ns)) = IsPrintable n × ArePrintable ns
  IsPrintable (or_node none_left) = ⊥
  IsPrintable (or_node (cons_node n ns)) = IsPrintable n × ArePrintable ns
  IsPrintable _ = Unit

  pub ArePrintable : Nodes → Type 0
  ArePrintable none_left = Unit
  ArePrintable (cons_node n ns) = IsPrintable n × ArePrintable ns

joined-append : (fs gs : List Text) → joined (fs ++ gs) ≡ joined fs ++ joined gs
unfolding joined
joined-append [] gs = refl
joined-append (f ∷ fs) gs =
    ap (λ t. f ++ t) (joined-append fs gs) ∙ sym (append_assoc f (joined fs) (joined gs))

-- The fragments are extended by ones that make up the text.
record Adds (fs : List Text) (t : Text) (o : Option (List Text)) : Type 0 where
  fragments : List Text
  returns : o ≡ some fragments
  text : joined fragments ≡ joined fs ++ t

append-Adds : (fs gs : List Text) (t : Text) → joined gs ≡ t → Adds fs t (some (fs ++ gs))
append-Adds fs gs t e = record {
  fragments = fs ++ gs;
  returns = refl;
  text = joined-append fs gs ∙ ap (λ u. joined fs ++ u) e;
}

-- First what adds one text, then what adds another.
then-Adds :
    (fs : List Text) (t u : Text) (o : Option (List Text)) (f : List Text → Option (List Text))
    → Adds fs t o
    → ((gs : List Text) → Adds gs u (f gs))
    → Adds fs (t ++ u) (o >>= f)
then-Adds fs t u o f a next =
    let b = next a.fragments in
    record {
      fragments = b.fragments;
      returns = rw a.returns b.returns;
      text = b.text ∙ (ap (λ v. v ++ u) a.text ∙ append_assoc (joined fs) t u);
    }

set_fragments-Adds :
    (fs : List Text) (values : StringSet)
    → joined (set_fragments false fs values) ≡ joined fs ++ more_values values
unfolding set_fragments joined
set_fragments-Adds fs [] = sym (append-nil (joined fs))
set_fragments-Adds fs (s ∷ values) =
    set_fragments-Adds ((fs ++ bytes ", " ∷ []) ++ quote s ∷ s ∷ quote s ∷ []) values
    ∙ simp (joined-append, append_assoc, append-nil) refl

operation-Adds :
    (fs : List Text) (name op v : Text)
    → Adds fs (operation_text name op v) (some (append_label_op_and_quoted_string fs name op v))
unfolding append_label_op_and_quoted_string joined
operation-Adds fs name op v = append-Adds fs _ _ (simp (append-nil) refl)

set-Adds :
    (fs : List Text) (name op : Text) (values : StringSet)
    → Adds fs (set_text name op values) (some (collect_in_op_fragments fs name op values))
unfolding collect_in_op_fragments set_fragments joined
set-Adds fs name op [] = record {
  fragments = _;
  returns = refl;
  text = simp (joined-append, append_assoc, append-nil) refl;
}
set-Adds fs name op (s ∷ values) = record {
  fragments = _;
  returns = refl;
  text = simp (joined-append, set_fragments-Adds, append_assoc, append-nil) refl;
}

operands-Adds :
    (op : Text) (n : Node) (ns : Nodes) (fs : List Text)
    → ((gs : List Text) → Adds gs (text_of n) (collect_fragments n gs))
    → ((gs : List Text) → Adds gs (rest_text op ns) (collect_rest op ns gs))
    → Adds fs
        (bytes "(" ++ ((text_of n ++ rest_text op ns) ++ bytes ")"))
        (collect_operands op (cons_node n ns) fs)
unfolding collect_operands joined
operands-Adds op n ns fs first rest =
    let a = first (fs ++ bytes "(" ∷ []) in
    let b = rest a.fragments in
    record {
      fragments = b.fragments ++ bytes ")" ∷ [];
      returns = rw a.returns (rw b.returns refl);
      text = simp (joined-append, b.text, a.text, append_assoc, append-nil) refl;
    }

mutual
  unfolding collect_fragments collect_operands collect_rest joined text_of operands_text rest_text
      IsPrintable ArePrintable

  collect-Adds :
      (n : Node) (fs : List Text) → IsPrintable n → Adds fs (text_of n) (collect_fragments n fs)
  collect-Adds (label_eq_value name v) fs p = operation-Adds fs name (bytes " == ") v
  collect-Adds (label_ne_value name v) fs p = operation-Adds fs name (bytes " != ") v
  collect-Adds (label_contains_value name v) fs p = operation-Adds fs name (bytes " contains ") v
  collect-Adds (label_starts_with_value name v) fs p =
      operation-Adds fs name (bytes " starts with ") v
  collect-Adds (label_ends_with_value name v) fs p = operation-Adds fs name (bytes " ends with ") v
  collect-Adds (label_in_set name set) fs p = set-Adds fs name (bytes "in") set
  collect-Adds (label_not_in_set name set) fs p = set-Adds fs name (bytes "not in") set
  collect-Adds (has_label name) fs p = append-Adds fs _ _ refl
  collect-Adds (not_node n) fs p =
      then-Adds fs (bytes "!") (text_of n) (some (fs ++ bytes "!" ∷ [])) (collect_fragments n)
        (append-Adds fs (bytes "!" ∷ []) _ refl) λ gs. collect-Adds n gs p
  collect-Adds (and_node none_left) fs p = absurd p
  collect-Adds (and_node (cons_node n ns)) fs (p, ps) =
      operands-Adds (bytes " && ") n ns fs (λ gs. collect-Adds n gs p)
        (λ gs. rest-Adds (bytes " && ") ns gs ps)
  collect-Adds (or_node none_left) fs p = absurd p
  collect-Adds (or_node (cons_node n ns)) fs (p, ps) =
      operands-Adds (bytes " || ") n ns fs (λ gs. collect-Adds n gs p)
        (λ gs. rest-Adds (bytes " || ") ns gs ps)
  collect-Adds all_node fs p = append-Adds fs _ _ refl
  collect-Adds global_node fs p = append-Adds fs _ _ refl

  rest-Adds :
      (op : Text) (ns : Nodes) (fs : List Text)
      → ArePrintable ns
      → Adds fs (rest_text op ns) (collect_rest op ns fs)
  rest-Adds op none_left fs ps = record {
    fragments = fs;
    returns = refl;
    text = sym (append-nil (joined fs));
  }
  rest-Adds op (cons_node n ns) fs (p, ps) =
      then-Adds fs (op ++ text_of n) (rest_text op ns) _ (collect_rest op ns)
        (then-Adds fs op (text_of n) (some (fs ++ op ∷ [])) (collect_fragments n)
          (append-Adds fs (op ∷ []) op (append-nil op)) λ gs. collect-Adds n gs p)
        λ gs. rest-Adds op ns gs ps

-- String of a selector that has no operator without operands, called for the first time, returns the
-- text written down node by node, and keeps it.
pub string-text_of :
    (n : Node)
    → IsPrintable n
    → string (record { root = n; cached_string = none })
      ≡ some (text_of n, record { root = n; cached_string = some (text_of n) })
unfolding string joined
string-text_of n p = let a = collect-Adds n [] p in rw a.returns (rw a.text refl)

-- ===== src/Selector/Tests.antt =====
-- A selector of a label with a value, of a label that is missing and of a set.
use zyzxlibcalico_go.Selector.Ast.Fragments.{IsPrintable, ArePrintable, text_of, string-text_of}
use zyzxlibcalico_go.Prelude.{◌≡◌, refl, none, some, [], ◌∷◌, ◌++◌}
use zyzxlibcalico_go.Selector.Text.{Text, text_eq, text_lt}
use zyzxlibcalico_go.Selector.StringSet.{
  contains, convert_to_string_set_in_place, sort, insert_text, dedup,
}
use zyzxlibcalico_go.Selector.StringSet.Members.{member}
use zyzxlibcalico_go.Selector.StringSet.Search.{contains-convert}
use zyzxlibcalico_go.Selector.Tokenizer.{
  Token, Tokens, bytes, tokenize, tokenize_from, step, trim_left, skip_space, after, span_label,
  label_key, is_space, is_word, is_label, has_expr, call_expr, not_in_expr, in_expr, contains_expr,
  with_expr, identifier, operator, operand, up_to,
}
use zyzxlibcalico_go.Selector.Tokenizer.Total.{Tokenized, tokenize_lem}
use zyzxlibcalico_go.Selector.Ast.{
  Node, Labels, label_in_set, has_label, not_node, and_node, cons_node, none_left, SelectorRoot,
  string, accept_visitor, evaluate_labels, collect_fragments, joined,
}
use zyzxlibcalico_go.Selector.Ast.Prefix.{evaluate_labels-accept_visitor, string-accept_visitor}
use zyzxlibcalico_go.Selector.Parser.{
  Parsed, parse, collapse, set_values, operation, operands, parse_and_expression,
  parse_or_expression, parse_operation,
}
use zyzxlibcalico_go.Selector.Parser.Total.{string-parse, Returns, parse-Returns}

abbrev selector : Text
selector = bytes "!has(x) && env in {\"b\", 'a', \"b\"}"

tokens_of_selector :
    tokenize selector
    ≡ Tokens.ok (
        Token.not_op
        ∷ Token.has (bytes "x")
        ∷ Token.and_op
        ∷ Token.label (bytes "env")
        ∷ Token.in_set
        ∷ Token.l_brace
        ∷ Token.string_literal (bytes "b")
        ∷ Token.comma
        ∷ Token.string_literal (bytes "a")
        ∷ Token.comma
        ∷ Token.string_literal (bytes "b")
        ∷ Token.r_brace
        ∷ Token.eof
        ∷ [])
unfolding tokenize tokenize_from step trim_left skip_space after span_label label_key is_space
    is_word is_label has_expr call_expr not_in_expr in_expr contains_expr with_expr identifier
    operator operand up_to
tokens_of_selector = refl

abbrev node : Node
node = and_node (
    cons_node (not_node (has_label (bytes "x")))
      (cons_node (label_in_set (bytes "env") (bytes "a" ∷ bytes "b" ∷ [])) none_left))

node_of_selector : parse selector ≡ Parsed.ok (record { root = node; cached_string = none })
unfolding tokenize tokenize_from step trim_left skip_space after span_label label_key is_space
    is_word is_label has_expr call_expr not_in_expr in_expr contains_expr with_expr identifier
    operator operand up_to parse collapse set_values operation operands parse_and_expression
    parse_or_expression parse_operation convert_to_string_set_in_place sort insert_text dedup
    text_lt text_eq
node_of_selector = refl

tokenize_lem_example : Tokenized (tokenize selector)
tokenize_lem_example = tokenize_lem selector

parse-Returns_example : Returns (parse selector)
parse-Returns_example = parse-Returns selector

contains-convert_example :
    contains (convert_to_string_set_in_place (bytes "b" ∷ bytes "a" ∷ bytes "b" ∷ [])) (bytes "a")
    ≡ member (bytes "a") (bytes "b" ∷ bytes "a" ∷ bytes "b" ∷ [])
contains-convert_example = contains-convert (bytes "b" ∷ bytes "a" ∷ bytes "b" ∷ []) (bytes "a")

abbrev labels : Labels
labels name = some name

abbrev fresh : SelectorRoot
fresh = record { root = node; cached_string = none }

evaluate_labels-accept_visitor_example :
    evaluate_labels (accept_visitor (bytes "pcns.") fresh) labels
    ≡ evaluate_labels fresh (λ name. labels (bytes "pcns." ++ name))
evaluate_labels-accept_visitor_example = evaluate_labels-accept_visitor (bytes "pcns.") fresh labels

abbrev has_x : SelectorRoot
has_x = record { root = has_label (bytes "x"); cached_string = none }

abbrev printed : SelectorRoot
printed = record { root = has_label (bytes "x"); cached_string = some (bytes "has(x)") }

print_x : string has_x ≡ some (bytes "has(x)", printed)
unfolding string collect_fragments joined
print_x = refl

string-accept_visitor_example :
    string (accept_visitor (bytes "p.") printed)
    ≡ some (bytes "has(x)", accept_visitor (bytes "p.") printed)
string-accept_visitor_example =
    string-accept_visitor (bytes "p.") has_x printed (bytes "has(x)") print_x

string-text_of_example :
    string (record { root = node; cached_string = none })
    ≡ some (text_of node, record { root = node; cached_string = some (text_of node) })
unfolding IsPrintable ArePrintable
string-text_of_example = string-text_of node (tt, (tt, tt))

string-parse_example :
    string (record { root = node; cached_string = none })
    ≡ some (text_of node, record { root = node; cached_string = some (text_of node) })
string-parse_example =
    string-parse selector (record { root = node; cached_string = none }) node_of_selector

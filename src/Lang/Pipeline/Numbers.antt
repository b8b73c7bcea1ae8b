-- ===== src/Lang/Pipeline/Numbers.antt =====
-- The numbers that prayer-lang/src/action_projection.rs prints, as the analyzer and the compiler read
-- them, and commands whose arguments the analyzer keeps.
use prayer_rs.Prelude.{ℕ, String, ◌≡◌, refl, ap, ◌∙◌, some, suc, List, [], ◌∷◌, arith, ok}
use prayer_rs.Prelude.Int.{pos}
use prayer_rs.Prelude.Assoc.{lookup, string_Eq}
use prayer_rs.Prelude.Text.{to_ascii_lowercase}
use prayer_rs.Prelude.Decimal.{
  print, print_i64, parse_i64, parse_i64-print_i64, parse_u64, parse_u64-print,
}
use prayer_rs.Actions.{Action}
use prayer_rs.Lang.Ast.{Span, AstNode, CommandNode}
use prayer_rs.Lang.Commands.{command_statement}
use prayer_rs.Lang.Catalog.{default_command_catalog}
use prayer_rs.Lang.Analysis.Nodes.{AnalyzedArg, ArgType, ArgSpec}
use prayer_rs.Lang.Analysis.Program.{
  analyze_arg, analyze_command_args, analyze, analyze_nodes, analyze_node, analyze_args, arg_kind,
  spec_args,
}
use prayer_rs.Lang.Compile.Command.{command_action}
use prayer_rs.Lang.Compile.Program.{arg_values, compile, compile_nodes, compile_node}
use prayer_rs.Lang.Pipeline.{read_node, read_parsed, read_line, no_observation}
use prayer_rs.Lang.Pipeline.Readable.{IsQuantity}

pub parse_i64-quantity : (n : ℕ) → IsQuantity n → parse_i64 (print n) ≡ some (pos n)
unfolding print_i64
parse_i64-quantity n h = parse_i64-print_i64 (pos n) (omega arith)

pub parse_u64-quantity : (n : ℕ) → IsQuantity n → parse_u64 (print n) ≡ some n
parse_u64-quantity n h = parse_u64-print n (omega arith)

abbrev pub all_resolved : List String → List AnalyzedArg
all_resolved [] = []
all_resolved (arg ∷ args) = AnalyzedArg.resolved arg ∷ all_resolved args

arg_values-all_resolved : (args : List String) → arg_values (all_resolved args) ≡ args
arg_values-all_resolved [] = refl
arg_values-all_resolved (arg ∷ args) = cc (arg_values-all_resolved args)

abbrev pub command_node : String → List String → Span → CommandNode
command_node name args span = record { name = name; args = args; span = span }

-- An argument that the analyzer keeps where no identifier is in view: a number has to be a quantity.
abbrev pub IsKept : ArgType → String → Type 0
IsKept ArgType.integer arg = (n : ℕ) × IsQuantity n × (arg ≡ print n)
IsKept _ arg = Unit

abbrev pub AllKept : List ArgSpec → ℕ → List String → Type 0
AllKept specs index [] = Unit
AllKept specs index (arg ∷ args) =
    IsKept (arg_kind specs index) arg × AllKept specs (suc index) args

analyze_arg-IsKept :
    (cmd : CommandNode) (index : ℕ) (arg : String) (kind : ArgType)
    → IsKept kind arg
    → analyze_arg cmd index arg kind no_observation ≡ (arg, [])
unfolding analyze_arg print_i64
analyze_arg-IsKept cmd index arg ArgType.any h = refl
analyze_arg-IsKept cmd index arg ArgType.integer h = ground (arith, parse_i64-quantity h.0 h.1, h.2)
analyze_arg-IsKept cmd index arg ArgType.item_id h = refl
analyze_arg-IsKept cmd index arg ArgType.system_id h = refl
analyze_arg-IsKept cmd index arg ArgType.poi_id h = refl
analyze_arg-IsKept cmd index arg ArgType.go_target h = refl
analyze_arg-IsKept cmd index arg ArgType.ship_id h = refl
analyze_arg-IsKept cmd index arg ArgType.listing_id h = refl
analyze_arg-IsKept cmd index arg ArgType.mission_id h = refl
analyze_arg-IsKept cmd index arg ArgType.module_id h = refl
analyze_arg-IsKept cmd index arg ArgType.recipe_id h = refl

analyze_args-AllKept :
    (cmd : CommandNode) (specs : List ArgSpec) (index : ℕ) (args : List String)
    → AllKept specs index args
    → analyze_args cmd specs no_observation index args ≡ (all_resolved args, [])
unfolding analyze_args arg_kind
analyze_args-AllKept cmd specs index [] h = refl
analyze_args-AllKept cmd specs index (arg ∷ args) h = cc (
  analyze_arg-IsKept cmd index arg (arg_kind specs index) h.0,
  analyze_args-AllKept cmd specs (suc index) args h.1,
)

-- The kinds of a command's arguments in the default catalog.
abbrev pub specs_of : String → List ArgSpec
specs_of name = spec_args (lookup (to_ascii_lowercase name) default_command_catalog)

-- A command whose arguments the analyzer keeps is read as the action that they make.
read_command :
    (name : String) (args : List String) (span : Span) (action : Action)
    → AllKept (specs_of name) 0 args
    → command_action name args ≡ ok action
    → read_parsed (ok (AstNode.command (command_node name args span))) ≡ some (action ∷ [])
unfolding read_parsed read_node analyze analyze_nodes analyze_node analyze_command_args compile
    compile_nodes compile_node
read_command name args span action kept made = ground (
  arith,
  analyze_args-AllKept (command_node name args span) (specs_of name) 0 args kept,
  made,
  arg_values-all_resolved args,
)

pub read_words_as :
    (name : String) (words : List String) (name' : String) (args : List String) (span : Span)
    (action : Action)
    → command_statement name words span ≡ ok (AstNode.command (command_node name' args span))
    → AllKept (specs_of name') 0 args
    → command_action name' args ≡ ok action
    → read_line name words span ≡ some (action ∷ [])
unfolding read_line
read_words_as name words name' args span action parsed kept made =
    ap read_parsed parsed ∙ read_command name' args span action kept made

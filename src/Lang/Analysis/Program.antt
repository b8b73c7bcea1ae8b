-- ===== src/Lang/Analysis/Program.antt =====
-- `analyze` of prayer-lang/src/analyzer.rs. Each function returns the errors that it adds.
use prayer_rs.Prelude.{
  ℕ, zero, suc, String, Bool, not, ◌&&◌, ◌||◌, Option, none, some, List, [], ◌∷◌, ◌++◌, is_nil,
  is_some, if◌then◌else◌, ◌==◌, Result, ok, err,
}
use Prim.Native.String.{◌++◌ as ◌⊕◌}
use prayer_rs.Prelude.Assoc.{Assoc, lookup, string_Eq}
use prayer_rs.Prelude.Text.{to_ascii_lowercase}
use prayer_rs.Prelude.Decimal.{parse_i64, print_i64}
use prayer_rs.Lang.Ast.{Span, AstNode, AstProgram, CommandNode, SayNode, CraftNode, RecycleNode}
use prayer_rs.Lang.Analysis.Nodes.{
  ArgType, ArgSpec, CommandSpec, AnalysisObservation, AnalyzedArg, AnalyzedNode, AnalyzedProgram,
  AnalyzerError, AnalyzedCraft, AnalyzedRecycle,
}
use prayer_rs.Lang.Analysis.Resolve.{resolve_identity, Resolution}
use prayer_rs.Lang.Analysis.Pairs.{analyze_transfer}

unfoldable pub typed_statement_error : String → Span → String → AnalyzerError
typed_statement_error command span message = record {
  command = command;
  arg_index = 0;
  value = "";
  suggestion = none;
  span = span;
  message = message;
}

-- The identifier that is found, or the word itself and perhaps an error.
unfoldable pub resolved_or_error :
    String → ℕ → String → Span → Option Resolution → String × List AnalyzerError
resolved_or_error command index value span none = (value, [])
resolved_or_error command index value span (some (resolved, suggestion, none)) = (resolved, [])
resolved_or_error command index value span (some (resolved, suggestion, some message)) = (
  value,
  record {
    command = command;
    arg_index = index;
    value = value;
    suggestion = suggestion;
    span = span;
    message = message;
  }
      ∷ [],
)

unfoldable pub resolve_typed_identity :
    String → ArgType → String → Span → AnalysisObservation → String × List AnalyzerError
unfolding resolved_or_error resolve_identity
resolve_typed_identity command kind value span state =
    resolved_or_error command 0 value span (resolve_identity kind value state)

unfoldable pub analyze_craft : CraftNode → AnalysisObservation → AnalyzedCraft × List AnalyzerError
unfolding resolved_or_error resolve_identity
analyze_craft craft state =
    let (recipe, errors) =
      resolved_or_error "craft" 0 craft.recipe_id craft.span
        (resolve_identity ArgType.recipe_id craft.recipe_id state) in
    (record { source = craft; recipe_id = recipe }, errors)

unfoldable pub analyze_recycle :
    RecycleNode → AnalysisObservation → AnalyzedRecycle × List AnalyzerError
unfolding resolve_typed_identity
analyze_recycle recycle state =
    let (recipe, errors) =
      resolve_typed_identity "recycle" ArgType.recipe_id recycle.recipe_id recycle.span state in
    (record { source = recycle; recipe_id = recipe }, errors)

abbrev is_channel : String → Bool
is_channel channel =
    channel == "system" || channel == "local" || channel == "faction" || channel == "private"

unfoldable pub say_errors : SayNode → List AnalyzerError
unfolding typed_statement_error
say_errors say =
    if not (is_channel say.channel)
    then typed_statement_error "say" say.span
        ("unknown say channel '" ⊕ say.channel ⊕ "'; expected system, local, faction, or private")
      ∷ []
    else if say.channel == "private" && not (is_some say.target)
    then typed_statement_error "say" say.span "private say requires a target player" ∷ []
    else if not (say.channel == "private") && is_some say.target
    then typed_statement_error "say" say.span "only private say accepts a target player" ∷ []
    else []

unfoldable pub analyze_arg :
    CommandNode → ℕ → String → ArgType → AnalysisObservation → String × List AnalyzerError
unfolding resolved_or_error resolve_identity
analyze_arg cmd index arg ArgType.integer state = elim (parse_i64 arg) [
  | some v ↦ (print_i64 v, [])
  | none ↦ (
    arg,
    record {
      command = cmd.name;
      arg_index = index;
      value = arg;
      suggestion = none;
      span = cmd.span;
      message = "expected integer argument, got '" ⊕ arg ⊕ "'";
    }
        ∷ [],
  )
]
analyze_arg cmd index arg kind state =
    resolved_or_error cmd.name index arg cmd.span (resolve_identity kind arg state)

-- The kind of the last argument, if it stands for all that follow.
abbrev pub last_variadic : List ArgSpec → Option ArgType
last_variadic [] = none
last_variadic (a ∷ []) = if a.variadic then some a.kind else none
last_variadic (a ∷ b ∷ rest) = last_variadic (b ∷ rest)

abbrev pub arg_at : List ArgSpec → ℕ → Option ArgSpec
arg_at [] n = none
arg_at (a ∷ rest) zero = some a
arg_at (a ∷ rest) (suc n) = arg_at rest n

abbrev or_any : Option ArgType → ArgType
or_any none = ArgType.any
or_any (some kind) = kind

unfoldable pub arg_kind : List ArgSpec → ℕ → ArgType
arg_kind specs index = elim (arg_at specs index) [
  | some a ↦ a.kind
  | none ↦ or_any (last_variadic specs)
]

unfoldable pub analyze_args :
    CommandNode
    → List ArgSpec
    → AnalysisObservation
    → ℕ
    → List String
    → List AnalyzedArg × List AnalyzerError
unfolding analyze_arg arg_kind
analyze_args cmd specs state index [] = ([], [])
analyze_args cmd specs state index (arg ∷ args) =
    let (resolved, errors) = analyze_arg cmd index arg (arg_kind specs index) state in
    let (rest, more) = analyze_args cmd specs state (suc index) args in
    (AnalyzedArg.resolved resolved ∷ rest, errors ++ more)

-- The arguments of a command in the catalog; a command that is not there has none.
abbrev pub spec_args : Option CommandSpec → List ArgSpec
spec_args none = []
spec_args (some spec) = spec.args

unfoldable pub analyze_command_args :
    CommandNode
    → Assoc String CommandSpec
    → AnalysisObservation
    → List AnalyzedArg × List AnalyzerError
unfolding analyze_args
analyze_command_args cmd catalog state =
    analyze_args cmd (spec_args (lookup (to_ascii_lowercase cmd.name) catalog)) state 0 cmd.args

unfoldable pub analyze_node :
    AstNode → Assoc String CommandSpec → AnalysisObservation → AnalyzedNode × List AnalyzerError
unfolding analyze_command_args analyze_transfer analyze_craft analyze_recycle say_errors
analyze_node (AstNode.command cmd) catalog state =
    let (args, errors) = analyze_command_args cmd catalog state in
    (AnalyzedNode.command (record { source = cmd; args = args }), errors)
analyze_node (AstNode.transfer transfer) catalog state =
    let (analyzed, errors) = analyze_transfer transfer state in
    (AnalyzedNode.transfer analyzed, errors)
analyze_node (AstNode.craft craft) catalog state =
    let (analyzed, errors) = analyze_craft craft state in (AnalyzedNode.craft analyzed, errors)
analyze_node (AstNode.say say) catalog state = (AnalyzedNode.say say, say_errors say)
analyze_node (AstNode.buy buy) catalog state = (AnalyzedNode.buy buy, [])
analyze_node (AstNode.sell sell) catalog state = (AnalyzedNode.sell sell, [])
analyze_node (AstNode.recycle recycle) catalog state =
    let (analyzed, errors) = analyze_recycle recycle state in
    (AnalyzedNode.recycle analyzed, errors)
analyze_node (AstNode.commission_ship commission) catalog state =
    (AnalyzedNode.commission_ship commission, [])

unfoldable pub analyze_nodes :
    List AstNode
    → Assoc String CommandSpec
    → AnalysisObservation
    → List AnalyzedNode × List AnalyzerError
unfolding analyze_node
analyze_nodes [] catalog state = ([], [])
analyze_nodes (node ∷ nodes) catalog state =
    let (analyzed, errors) = analyze_node node catalog state in
    let (rest, more) = analyze_nodes nodes catalog state in (analyzed ∷ rest, errors ++ more)

unfoldable pub analyze :
    AstProgram
    → Assoc String CommandSpec
    → AnalysisObservation
    → Result (List AnalyzerError) AnalyzedProgram
unfolding analyze_nodes
analyze program catalog state =
    let (nodes, errors) = analyze_nodes program.statements catalog state in
    if is_nil errors then ok (record { statements = nodes }) else err errors

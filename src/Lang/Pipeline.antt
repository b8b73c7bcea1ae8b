-- ===== src/Lang/Pipeline.antt =====
-- A statement's way from its text to an action, as prayer-lang/src/action_projection.rs takes it in
-- its tests and prayer-runtime/src/engine takes it for a script: `parse_script`, `analyze` with
-- the default catalog, `compile` and `materialize`.
use prayer_rs.Prelude.{
  String, Bool, not, ◌&&◌, ◌||◌, if◌then◌else◌, Option, none, some, List, [], ◌∷◌, Result, ok, err,
}
use prayer_rs.Prelude.Text.{is_empty, starts_with}
use prayer_rs.Lang.Scanner.{show_line, scan_line, skip_ws}
use prayer_rs.Lang.Removed.{removed_syntax}
use prayer_rs.Prelude.Assoc.{lookup}
use prayer_rs.Actions.{Action}
use prayer_rs.Lang.Ast.{Span, AstNode, AstProgram}
use prayer_rs.Lang.Projection.Requests.{Statement}
use prayer_rs.Lang.Commands.{command_statement}
use prayer_rs.Lang.Catalog.{default_command_catalog}
use prayer_rs.Lang.Analysis.Nodes.{AnalysisObservation}
use prayer_rs.Lang.Analysis.Program.{analyze}
use prayer_rs.Lang.Compile.Program.{PlanNode, materialize, compile}
pub mod Readable
pub mod Keywords
pub mod Numbers
pub mod Clauses
pub mod Services
pub mod Variadic
pub mod Words
pub mod RoundTrip
mod Tests

-- `AnalysisObservation::default()`
abbrev pub no_observation : AnalysisObservation
no_observation = record {
  system = none;
  item_ids = [];
  poi_ids = [];
  system_ids = [];
  mission_ids = [];
  ship_ids = [];
  owned_ship_ids = [];
  module_ids = [];
  recipe_ids = [];
  listing_ids = [];
}

unfoldable pub node_actions : List PlanNode → List Action
unfolding materialize
node_actions [] = []
node_actions (PlanNode.action template ∷ nodes) = materialize template ∷ node_actions nodes

-- The actions of a statement, where no stage refuses it.
unfoldable pub read_node : AstNode → Option (List Action)
unfolding analyze compile default_command_catalog node_actions lookup
read_node node =
    elim (analyze (record { statements = node ∷ [] }) default_command_catalog no_observation) [
      | err errors ↦ none
      | ok program ↦ elim (compile program) [
        | err error ↦ none
        | ok compiled ↦ some (node_actions compiled.nodes)
      ]
    ]

-- What becomes of what the parser makes of a statement.
unfoldable pub read_parsed : Result String AstNode → Option (List Action)
unfolding read_node
read_parsed (err message) = none
read_parsed (ok node) = read_node node

unfoldable pub read_line : String → List String → Span → Option (List Action)
unfolding command_statement read_parsed
read_line name words span = read_parsed (command_statement name words span)

-- A statement whose words are given; a block's are not read here.
unfoldable pub read_words : Statement → Span → Option (List Action)
unfolding read_line
read_words (Statement.line name words) span = read_line name words span
read_words (Statement.block rows words) span = none

-- The alternatives of `statement_parser` in front of `command` begin with these keywords; they are not
-- read here.
unfoldable pub has_own_parser : String → Bool
has_own_parser name = starts_with name "transfer" || starts_with name "say"

-- What becomes of a statement that is scanned, with nothing but blanks behind it.
unfoldable pub read_scanned : Option (String × List String × String) → Span → Option (List Action)
unfolding read_line skip_ws has_own_parser
read_scanned none span = none
read_scanned (some (name, words, behind)) span =
    if is_empty (skip_ws behind) && not (has_own_parser name)
    then read_line name words span
    else none

-- The text of one statement, from `parse_script` on. `span` is where the parser finds it.
unfoldable pub read_text : String → Span → Option (List Action)
unfolding removed_syntax scan_line skip_ws read_scanned
read_text text span =
    if removed_syntax text then none else read_scanned (scan_line (skip_ws text)) span

-- A statement as it is shown; the text of a block is not read here.
unfoldable pub read_statement : Statement → Span → Option (List Action)
unfolding read_text show_line
read_statement (Statement.line name words) span = read_text (show_line name words) span
read_statement (Statement.block rows words) span = none

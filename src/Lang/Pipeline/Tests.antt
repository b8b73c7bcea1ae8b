-- ===== src/Lang/Pipeline/Tests.antt =====
-- Runs of the way from an action's statement back to the action.
use prayer_rs.Prelude.{◌≡◌, refl, none, some, [], ◌∷◌}
use prayer_rs.Actions.{Action}
use prayer_rs.Actions.Requests.{GoTarget, TradeOfferRequest}
use prayer_rs.Lang.Ast.{Span}
use prayer_rs.Lang.Projection.{render_action}
use prayer_rs.Prelude.Text.{starts_with, is_whitespace}
use prayer_rs.Prelude.Assoc.{lookup}
use prayer_rs.Lang.Scanner.{requires_quotes, show_line, scan_line, skip_ws}
use prayer_rs.Lang.Removed.{removed_syntax}
use prayer_rs.Lang.Analysis.Program.{arg_kind}
use prayer_rs.Lang.Compile.Command.{command_action}
use prayer_rs.Lang.Pipeline.{read_text, read_statement, node_actions}

abbrev somewhere : Span
somewhere = record { start = 3; end = 40 }

-- An offer of credits and two items for one item.
abbrev swap : TradeOfferRequest
swap = record {
  target = "pilot";
  offer_items =
      record { item = "iron"; quantity = 5 } ∷ record { item = "gold"; quantity = 1 } ∷ [];
  offer_credits = some 250;
  request_items = record { item = "ship_core"; quantity = 1 } ∷ [];
  request_credits = none;
}

-- The texts of these actions are refused.
home_refused :
    read_statement (render_action (Action.go (GoTarget.identifier "home"))) somewhere ≡ none
unfolding read_statement render_action removed_syntax starts_with show_line
home_refused = refl

bang_refused : read_statement (render_action (Action.attack "hello!")) somewhere ≡ none
unfolding read_statement render_action removed_syntax starts_with show_line requires_quotes
    is_whitespace scan_line skip_ws
bang_refused = refl

quoted_read :
    read_text "attack \"two \\\"words\\\"\" ;" somewhere ≡ some (Action.attack "two \"words\"" ∷ [])
unfolding read_text removed_syntax starts_with scan_line skip_ws node_actions lookup arg_kind
    command_action
quoted_read = refl

-- ===== src/Lang/Analysis/Transfer.antt =====
-- The transfers in prayer-lang/src/analyzer.rs: endpoints that are left out, the subject, and what may
-- move between which endpoints. Errors are returned as the list of those that are added.
use prayer_rs.Prelude.{
  String, Bool, true, false, not, ◌&&◌, Option, none, some, List, [], ◌∷◌, ◌++◌, if◌then◌else◌,
  ◌==◌, any,
}
use prayer_rs.Prelude.Int.{ℤ, pos, leb_ℤ}
use prayer_rs.Lang.Ast.{Span, TransferItem, TransferSubject, TransferEndpoint, TransferNode}
use prayer_rs.Lang.Analysis.Nodes.{
  ArgType, AnalysisObservation, AnalyzedTransferItem, AnalyzedTransferSubject,
  AnalyzedTransferEndpoint, AnalyzerError,
}
use prayer_rs.Lang.Analysis.Resolve.{resolve_identity, Resolution}

unfoldable pub transfer_error : Span → String → AnalyzerError
transfer_error span message = record {
  command = "transfer";
  arg_index = 0;
  value = "transfer";
  suggestion = none;
  span = span;
  message = message;
}

-- The error of an id that is not found.
unfoldable pub unresolved : Span → String → Option String → String → AnalyzerError
unresolved span id suggestion message = record {
  command = "transfer";
  arg_index = 0;
  value = id;
  suggestion = suggestion;
  span = span;
  message = message;
}

unfoldable pub transfer_endpoint : TransferEndpoint → AnalyzedTransferEndpoint
transfer_endpoint TransferEndpoint.cargo = AnalyzedTransferEndpoint.cargo
transfer_endpoint TransferEndpoint.storage = AnalyzedTransferEndpoint.storage
transfer_endpoint TransferEndpoint.faction = AnalyzedTransferEndpoint.faction
transfer_endpoint (TransferEndpoint.faction_tag tag) = AnalyzedTransferEndpoint.faction_tag tag
transfer_endpoint (TransferEndpoint.player name) = AnalyzedTransferEndpoint.player name
transfer_endpoint (TransferEndpoint.space id) = AnalyzedTransferEndpoint.space id
transfer_endpoint (TransferEndpoint.commission id) = AnalyzedTransferEndpoint.commission id

abbrev is_credits : TransferSubject → Bool
is_credits (TransferSubject.credits _) = true
is_credits _ = false

abbrev endpoints :
    Option TransferEndpoint
    → Option TransferEndpoint
    → TransferSubject
    → AnalyzedTransferEndpoint × AnalyzedTransferEndpoint
endpoints none none subject = (
  AnalyzedTransferEndpoint.cargo,
  if is_credits subject then AnalyzedTransferEndpoint.cargo else AnalyzedTransferEndpoint.storage,
)
endpoints (some from) none subject = (transfer_endpoint from, AnalyzedTransferEndpoint.cargo)
endpoints none (some to) subject = (AnalyzedTransferEndpoint.cargo, transfer_endpoint to)
endpoints (some from) (some to) subject = (transfer_endpoint from, transfer_endpoint to)

unfoldable pub resolve_transfer_endpoints :
    TransferNode → AnalyzedTransferEndpoint × AnalyzedTransferEndpoint
resolve_transfer_endpoints transfer = endpoints transfer.from transfer.to transfer.subject

-- The id of the ship that is given, where no item is found.
abbrev given_ship : Option Resolution → Span → String → Option String × List AnalyzerError
given_ship none span id = (none, [])
given_ship (some (resolved, suggestion, none)) span id = (some resolved, [])
given_ship (some (resolved, suggestion, some message)) span id =
    (none, unresolved span id suggestion message ∷ [])

abbrev resolved_item :
    Option Resolution
    → Option Resolution
    → Bool
    → Span
    → String
    → Option String × List AnalyzerError
resolved_item (some (resolved, s, none)) found_ship allow_ship_gift span id = (some resolved, [])
resolved_item (some (r, suggestion, some message)) (some (ship, s, none)) true span id =
    (some ship, [])
resolved_item (some (r, suggestion, some message)) found_ship allow_ship_gift span id =
    (none, unresolved span id suggestion message ∷ [])
resolved_item none found_ship true span id = given_ship found_ship span id
resolved_item none found_ship false span id = (none, [])

unfoldable pub resolve_transfer_item_id :
    String → Bool → TransferNode → AnalysisObservation → Option String × List AnalyzerError
unfolding resolve_identity
resolve_transfer_item_id id allow_ship_gift transfer state =
    resolved_item (resolve_identity ArgType.item_id id state)
      (resolve_identity ArgType.ship_id id state) allow_ship_gift transfer.span id

abbrev pub or_given : String → Option String → String
or_given id none = id
or_given id (some resolved) = resolved

abbrev pub is_positive : ℤ → Bool
is_positive qty = not (leb_ℤ qty (pos 0))

-- The error of a quantity that is not positive.
abbrev pub quantity_error : Bool → Span → String → List AnalyzerError
quantity_error good span message = if good then [] else transfer_error span message ∷ []

unfoldable pub analyze_transfer_items :
    TransferNode
    → AnalysisObservation
    → List TransferItem
    → List AnalyzedTransferItem × List AnalyzerError
unfolding resolve_transfer_item_id
analyze_transfer_items transfer state [] = ([], [])
analyze_transfer_items transfer state (item ∷ items) =
    let (resolved, errors) = resolve_transfer_item_id item.id false transfer state in
    let (rest, more) = analyze_transfer_items transfer state items in
    (
      record { id = or_given item.id resolved; qty = item.qty } ∷ rest,
      quantity_error (is_positive item.qty) transfer.span "item quantity must be positive"
          ++ (errors ++ more),
    )

abbrev pub is_player : AnalyzedTransferEndpoint → Bool
is_player (AnalyzedTransferEndpoint.player _) = true
is_player _ = false

-- `matches!(qty, Some(qty) if *qty <= 0)`, negated.
abbrev pub is_good_quantity : Option ℤ → Bool
is_good_quantity none = true
is_good_quantity (some qty) = is_positive qty

abbrev pub is_none : Option ℤ → Bool
is_none none = true
is_none (some qty) = false

abbrev is_owned : AnalysisObservation → Option String → Bool
is_owned state none = false
is_owned state (some resolved) = any (λ ship. ship == resolved) state.owned_ship_ids

unfoldable pub item_subject :
    String
    → Option ℤ
    → Bool
    → TransferNode
    → AnalysisObservation
    → AnalyzedTransferSubject × List AnalyzerError
unfolding resolve_transfer_item_id
item_subject id qty allow_ship_gift transfer state =
    let (resolved, errors) = resolve_transfer_item_id id allow_ship_gift transfer state in
    (
      if allow_ship_gift && is_owned state resolved
          then AnalyzedTransferSubject.ship (or_given id resolved)
          else AnalyzedTransferSubject.item (or_given id resolved) qty,
      quantity_error (is_good_quantity qty) transfer.span "item quantity must be positive"
          ++ errors,
    )

unfoldable pub analyze_subject :
    TransferNode
    → AnalyzedTransferEndpoint
    → AnalysisObservation
    → TransferSubject
    → AnalyzedTransferSubject × List AnalyzerError
unfolding item_subject
analyze_subject transfer to state TransferSubject.all_cargo =
    (AnalyzedTransferSubject.all_cargo, [])
analyze_subject transfer to state (TransferSubject.credits qty) = (
  AnalyzedTransferSubject.credits qty,
  quantity_error (is_positive qty) transfer.span "credits quantity must be positive",
)
analyze_subject transfer to state (TransferSubject.ship id) = (AnalyzedTransferSubject.ship id, [])
analyze_subject transfer to state (TransferSubject.ship_module id) =
    (AnalyzedTransferSubject.ship_module id, [])
analyze_subject transfer to state (TransferSubject.item id qty) =
    item_subject id qty (is_none qty && is_player to) transfer state

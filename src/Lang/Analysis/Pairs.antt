-- ===== src/Lang/Analysis/Pairs.antt =====
-- `validate_transfer_pair` of prayer-lang/src/analyzer.rs.
use prayer_rs.Prelude.{
  String, Bool, true, false, not, ◌&&◌, ◌||◌, Option, none, some, List, [], ◌∷◌, ◌++◌, is_nil,
  if◌then◌else◌, ◌==◌,
}
use prayer_rs.Lang.Ast.{Span, TransferNode}
use prayer_rs.Lang.Analysis.Nodes.{
  AnalysisObservation, AnalyzedTransferItem, AnalyzedTransferSubject, AnalyzedTransferEndpoint,
  AnalyzedTransfer, AnalyzerError,
}
use prayer_rs.Lang.Analysis.Transfer.{
  transfer_error, resolve_transfer_endpoints, analyze_transfer_items, analyze_subject,
}
use AnalyzedTransferEndpoint.{cargo, storage, faction, faction_tag, player, space, commission}

abbrev option_eq : Option String → Option String → Bool
option_eq none none = true
option_eq (some a) (some b) = a == b
option_eq _ _ = false

-- The derived equality.
unfoldable pub endpoint_eq : AnalyzedTransferEndpoint → AnalyzedTransferEndpoint → Bool
endpoint_eq cargo cargo = true
endpoint_eq storage storage = true
endpoint_eq faction faction = true
endpoint_eq (faction_tag a) (faction_tag b) = a == b
endpoint_eq (player a) (player b) = a == b
endpoint_eq (space a) (space b) = option_eq a b
endpoint_eq (commission a) (commission b) = a == b
endpoint_eq _ _ = false

abbrev pub is_cargo : AnalyzedTransferEndpoint → Bool
is_cargo cargo = true
is_cargo _ = false

abbrev pub is_space : AnalyzedTransferEndpoint → Bool
is_space (space _) = true
is_space _ = false

abbrev pub is_commission : AnalyzedTransferEndpoint → Bool
is_commission (commission _) = true
is_commission _ = false

-- Where credits cannot be.
abbrev pub holds_no_credits : AnalyzedTransferEndpoint → Bool
holds_no_credits storage = true
holds_no_credits (space _) = true
holds_no_credits _ = false

abbrev pub gives_ship : AnalyzedTransferEndpoint → AnalyzedTransferEndpoint → Bool
gives_ship cargo (player _) = true
gives_ship cargo faction = true
gives_ship storage (player _) = true
gives_ship storage faction = true
gives_ship _ _ = false

abbrev pub gives_module : AnalyzedTransferEndpoint → AnalyzedTransferEndpoint → Bool
gives_module (space (some _)) cargo = true
gives_module _ _ = false

abbrev pub is_credits : AnalyzedTransferSubject → Bool
is_credits (AnalyzedTransferSubject.credits _) = true
is_credits _ = false

abbrev pub is_ship : AnalyzedTransferSubject → Bool
is_ship (AnalyzedTransferSubject.ship _) = true
is_ship _ = false

abbrev pub is_module : AnalyzedTransferSubject → Bool
is_module (AnalyzedTransferSubject.ship_module _) = true
is_module _ = false

abbrev pub is_counted_item : AnalyzedTransferSubject → Bool
is_counted_item (AnalyzedTransferSubject.item _ (some _)) = true
is_counted_item _ = false

abbrev pub is_all_cargo : AnalyzedTransferSubject → Bool
is_all_cargo AnalyzedTransferSubject.all_cargo = true
is_all_cargo _ = false

abbrev pub error_if : Bool → Span → String → List AnalyzerError
error_if bad span message = if bad then transfer_error span message ∷ [] else []

unfoldable pub validate_transfer_pair :
    Span
    → AnalyzedTransferSubject
    → List AnalyzedTransferItem
    → AnalyzedTransferEndpoint
    → AnalyzedTransferEndpoint
    → List AnalyzerError
unfolding endpoint_eq
validate_transfer_pair span subject items from to =
    error_if (endpoint_eq from to) span "transfer endpoints must be different"
    ++ (error_if (is_credits subject && holds_no_credits from) span
          "credits can only move between cargo, faction treasury, or player endpoints"
        ++ (error_if (is_credits subject && holds_no_credits to) span
              "credits can only move between cargo, faction treasury, or player endpoints"
            ++ (error_if (is_ship subject && not (gives_ship from to)) span
                  "ships can only be transferred from cargo/storage to a player or faction garage"
                ++ (error_if (is_module subject && not (gives_module from to)) span
                      "modules can only be transferred from a named space wreck to cargo"
                    ++ (error_if
                          (is_commission to
                            && (not (is_cargo from) || not (is_counted_item subject)))
                          span "commission transfers require a quantity item from cargo"
                        ++ (error_if (not (is_nil items) && not (is_all_cargo subject)) span
                              "transfer block items cannot be mixed with a flat subject"
                            ++ (error_if (not (is_nil items) && not (is_cargo from)) span
                                  "transfer block items can only move from cargo"
                                ++ (error_if (not (is_nil items) && is_cargo to) span
                                      "transfer block items require a storage, faction, player, or space destination"
                                    ++ (error_if (is_space from && not (is_cargo to)) span
                                          "space loot can only be transferred into cargo"
                                        ++ error_if (is_space to && not (is_cargo from)) span
                                            "space transfers can only jettison from cargo")))))))))

unfoldable pub analyze_transfer :
    TransferNode → AnalysisObservation → AnalyzedTransfer × List AnalyzerError
unfolding resolve_transfer_endpoints analyze_transfer_items analyze_subject validate_transfer_pair
analyze_transfer transfer state =
    let (from, to) = resolve_transfer_endpoints transfer in
    let (items, item_errors) = analyze_transfer_items transfer state transfer.items in
    let (subject, subject_errors) = analyze_subject transfer to state transfer.subject in
    (
      record { source = transfer; subject = subject; items = items; from = from; to = to },
      item_errors ++ (subject_errors ++ validate_transfer_pair transfer.span subject items from to),
    )

-- ===== src/Lang/Analysis/Nodes.antt =====
-- The types of prayer-lang/src/analyzer.rs and the argument kinds of prayer-lang/src/lib.rs.
use prayer_rs.Prelude.{ℕ, String, Bool, Option, List}
use prayer_rs.Prelude.Int.{ℤ}
use prayer_rs.Lang.Ast.{
  Span, CommandNode, TransferNode, CraftNode, SayNode, BuyNode, SellNode, RecycleNode,
  CommissionShipNode,
}

pub data ArgType : Type 0 where
  any integer item_id system_id poi_id go_target ship_id listing_id mission_id module_id recipe_id :
      ArgType

pub record ArgSpec : Type 0 where
  pub name : String
  pub kind : ArgType
  pub required : Bool
  pub variadic : Bool

pub record CommandSpec : Type 0 where
  pub name : String
  pub args : List ArgSpec

-- The identifiers in view; `owned_ship_ids` is a set.
pub record AnalysisObservation : Type 0 where
  pub system : Option String
  pub item_ids : List String
  pub poi_ids : List String
  pub system_ids : List String
  pub mission_ids : List String
  pub ship_ids : List String
  pub owned_ship_ids : List String
  pub module_ids : List String
  pub recipe_ids : List String
  pub listing_ids : List String

pub data AnalyzedArg : Type 0 where
  resolved : String → AnalyzedArg

pub record AnalyzedCommand : Type 0 where
  pub source : CommandNode
  pub args : List AnalyzedArg

pub record AnalyzedTransferItem : Type 0 where
  pub id : String
  pub qty : ℤ

pub data AnalyzedTransferSubject : Type 0 where
  all_cargo : AnalyzedTransferSubject
  credits : ℤ → AnalyzedTransferSubject
  item : String → Option ℤ → AnalyzedTransferSubject
  ship : String → AnalyzedTransferSubject
  ship_module : String → AnalyzedTransferSubject

pub data AnalyzedTransferEndpoint : Type 0 where
  cargo : AnalyzedTransferEndpoint
  storage : AnalyzedTransferEndpoint
  faction : AnalyzedTransferEndpoint
  faction_tag : String → AnalyzedTransferEndpoint
  player : String → AnalyzedTransferEndpoint
  space : Option String → AnalyzedTransferEndpoint
  commission : String → AnalyzedTransferEndpoint

pub record AnalyzedTransfer : Type 0 where
  pub source : TransferNode
  pub subject : AnalyzedTransferSubject
  pub items : List AnalyzedTransferItem
  pub from : AnalyzedTransferEndpoint
  pub to : AnalyzedTransferEndpoint

pub record AnalyzedCraft : Type 0 where
  pub source : CraftNode
  pub recipe_id : String

pub record AnalyzedRecycle : Type 0 where
  pub source : RecycleNode
  pub recipe_id : String

pub data AnalyzedNode : Type 0 where
  command : AnalyzedCommand → AnalyzedNode
  transfer : AnalyzedTransfer → AnalyzedNode
  craft : AnalyzedCraft → AnalyzedNode
  say : SayNode → AnalyzedNode
  buy : BuyNode → AnalyzedNode
  sell : SellNode → AnalyzedNode
  recycle : AnalyzedRecycle → AnalyzedNode
  commission_ship : CommissionShipNode → AnalyzedNode

pub record AnalyzedProgram : Type 0 where
  pub statements : List AnalyzedNode

pub record AnalyzerError : Type 0 where
  pub command : String
  pub arg_index : ℕ
  pub value : String
  pub suggestion : Option String
  pub span : Span
  pub message : String

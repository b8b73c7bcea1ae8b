-- ===== src/Lang/Ast.antt =====
-- prayer-lang/src/ast.rs and the spans of prayer-lang/src/lib.rs.
use prayer_rs.Prelude.{ℕ, String, Bool, Option, List}
use prayer_rs.Prelude.Int.{ℤ}

pub record Span : Type 0 where
  pub start : ℕ
  pub end : ℕ

pub record CraftClauses : Type 0 where
  pub source : Option String
  pub deliver_to : Option String
  pub facility_id : Option String
  pub preset : Option String

pub record SayNode : Type 0 where
  pub content : String
  pub channel : String
  pub target : Option String
  pub span : Span

pub record BuyNode : Type 0 where
  pub item_id : String
  pub quantity : ℕ
  pub max_price : Option ℕ
  pub place_order : Bool
  pub deliver_to : Option String
  pub span : Span

pub record SellNode : Type 0 where
  pub item_id : Option String
  pub quantity : Option ℕ
  pub min_price : Option ℕ
  pub place_order : Bool
  pub span : Span

pub record RecycleNode : Type 0 where
  pub recipe_id : String
  pub quantity : ℕ
  pub clauses : CraftClauses
  pub span : Span

pub record CommissionShipNode : Type 0 where
  pub ship_class : String
  pub provide_materials : Bool
  pub span : Span

pub record CommandNode : Type 0 where
  pub name : String
  pub args : List String
  pub span : Span

pub record CraftNode : Type 0 where
  pub recipe_id : String
  pub quantity : ℕ
  pub clauses : CraftClauses
  pub span : Span

pub record TransferItem : Type 0 where
  pub id : String
  pub qty : ℤ

pub data TransferSubject : Type 0 where
  all_cargo : TransferSubject
  credits : ℤ → TransferSubject
  ship : String → TransferSubject
  ship_module : String → TransferSubject
  item : String → Option ℤ → TransferSubject

pub data TransferEndpoint : Type 0 where
  cargo : TransferEndpoint
  storage : TransferEndpoint
  faction : TransferEndpoint
  faction_tag : String → TransferEndpoint
  player : String → TransferEndpoint
  space : Option String → TransferEndpoint
  commission : String → TransferEndpoint

pub record TransferNode : Type 0 where
  pub subject : TransferSubject
  pub items : List TransferItem
  pub from : Option TransferEndpoint
  pub to : Option TransferEndpoint
  pub span : Span

pub data AstNode : Type 0 where
  command : CommandNode → AstNode
  transfer : TransferNode → AstNode
  craft : CraftNode → AstNode
  say : SayNode → AstNode
  buy : BuyNode → AstNode
  sell : SellNode → AstNode
  recycle : RecycleNode → AstNode
  commission_ship : CommissionShipNode → AstNode

pub record AstProgram : Type 0 where
  pub statements : List AstNode

-- ===== src/Lang/Compile/Program.antt =====
-- `compile` of prayer-lang/src/compiler.rs: each analyzed statement gives an action and its span.
use prayer_rs.Prelude.{ℕ, String, none, some, List, [], ◌∷◌, Result, ok, err, ◌>>=◌}
use Prim.Native.String.{◌++◌ as ◌⊕◌}
use prayer_rs.Prelude.Int.{ℤ, pos, negsuc}
use prayer_rs.Prelude.Decimal.{print_i64}
use prayer_rs.Actions.{Action}
use prayer_rs.Actions.Requests.{TransferItem, TransferSubject, TransferEndpoint}
use prayer_rs.Lang.Ast.{Span}
use prayer_rs.Lang.Analysis.Nodes.{
  AnalyzedArg, AnalyzedNode, AnalyzedProgram, AnalyzedTransfer, AnalyzedTransferItem,
  AnalyzedTransferSubject, AnalyzedTransferEndpoint, AnalyzedCraft, AnalyzedRecycle,
}
use prayer_rs.Lang.Compile.Arguments.{CompileError}
use prayer_rs.Lang.Compile.Command.{command_action}

abbrev pub compiled_program_schema_version : ℕ
compiled_program_schema_version = 2

pub data TemplateAction : Type 0 where
  materialized : Action → TemplateAction

pub record ActionTemplate : Type 0 where
  pub action : TemplateAction
  pub source : Span

pub data PlanNode : Type 0 where
  action : ActionTemplate → PlanNode

pub record SourceMap : Type 0 where
  pub actions : List Span

pub record CompiledProgram : Type 0 where
  pub schema_version : ℕ
  pub nodes : List PlanNode
  pub source_map : SourceMap

unfoldable pub materialize : ActionTemplate → Action
materialize template = elim template.action [ TemplateAction.materialized done ↦ done ]

-- `u64::try_from(value)`
unfoldable pub positive : ℤ → Result CompileError ℕ
positive (pos n) = ok n
positive (negsuc n) =
    err (CompileError.invalid ("quantity " ⊕ print_i64 (negsuc n) ⊕ " must be non-negative"))

unfoldable pub endpoint : AnalyzedTransferEndpoint → TransferEndpoint
endpoint AnalyzedTransferEndpoint.cargo = TransferEndpoint.cargo
endpoint AnalyzedTransferEndpoint.storage = TransferEndpoint.storage
endpoint AnalyzedTransferEndpoint.faction = TransferEndpoint.faction
endpoint (AnalyzedTransferEndpoint.faction_tag tag) = TransferEndpoint.faction_tag tag
endpoint (AnalyzedTransferEndpoint.player name) = TransferEndpoint.player name
endpoint (AnalyzedTransferEndpoint.space id) = TransferEndpoint.space id
endpoint (AnalyzedTransferEndpoint.commission id) = TransferEndpoint.commission id

unfoldable pub flat_subject : AnalyzedTransferSubject → Result CompileError TransferSubject
unfolding positive
flat_subject AnalyzedTransferSubject.all_cargo = ok TransferSubject.all_cargo
flat_subject (AnalyzedTransferSubject.credits quantity) = do
  n ← positive quantity
  ok (TransferSubject.credits n)
flat_subject (AnalyzedTransferSubject.item id none) = ok (TransferSubject.item id none)
flat_subject (AnalyzedTransferSubject.item id (some qty)) = do
  n ← positive qty
  ok (TransferSubject.item id (some n))
flat_subject (AnalyzedTransferSubject.ship id) = ok (TransferSubject.ship id)
flat_subject (AnalyzedTransferSubject.ship_module id) = ok (TransferSubject.ship_module id)

unfoldable pub compile_items : List AnalyzedTransferItem → Result CompileError (List TransferItem)
unfolding positive
compile_items [] = ok []
compile_items (item ∷ items) = do
  n ← positive item.qty
  rest ← compile_items items
  ok (record { id = item.id; quantity = n } ∷ rest)

abbrev subject_of :
    List AnalyzedTransferItem → AnalyzedTransferSubject → Result CompileError TransferSubject
subject_of [] subject = flat_subject subject
subject_of (item ∷ items) subject = do
  compiled ← compile_items (item ∷ items)
  ok (TransferSubject.items compiled)

unfoldable pub transfer_action : AnalyzedTransfer → Result CompileError Action
unfolding flat_subject compile_items endpoint
transfer_action transfer = do
  subject ← subject_of transfer.items transfer.subject
  ok (
      Action.transfer
        (record { subject = subject; from = endpoint transfer.from; to = endpoint transfer.to }))

unfoldable pub craft_action : AnalyzedCraft → Action
craft_action craft = Action.craft (record {
  recipe_id = craft.recipe_id;
  quantity = craft.source.quantity;
  source = craft.source.clauses.source;
  destination = craft.source.clauses.deliver_to;
  facility_id = craft.source.clauses.facility_id;
  preset = craft.source.clauses.preset;
})

unfoldable pub recycle_action : AnalyzedRecycle → Action
recycle_action recycle = Action.recycle (record {
  recipe_id = recycle.recipe_id;
  quantity = recycle.source.quantity;
  source = recycle.source.clauses.source;
  destination = recycle.source.clauses.deliver_to;
  facility_id = recycle.source.clauses.facility_id;
})

abbrev pub arg_values : List AnalyzedArg → List String
arg_values [] = []
arg_values (AnalyzedArg.resolved value ∷ args) = value ∷ arg_values args

-- The action of a statement, and its span.
unfoldable pub compile_node : AnalyzedNode → Result CompileError (Action × Span)
unfolding command_action transfer_action craft_action recycle_action
compile_node (AnalyzedNode.command command) = do
  done ← command_action command.source.name (arg_values command.args)
  ok (done, command.source.span)
compile_node (AnalyzedNode.transfer transfer) = do
  done ← transfer_action transfer
  ok (done, transfer.source.span)
compile_node (AnalyzedNode.craft craft) = ok (craft_action craft, craft.source.span)
compile_node (AnalyzedNode.say say) = ok (
  Action.say (record { content = say.content; channel = say.channel; target = say.target }),
  say.span,
)
compile_node (AnalyzedNode.buy buy) = ok (
  Action.buy (record {
    item = buy.item_id;
    quantity = buy.quantity;
    max_price = buy.max_price;
    place_order = buy.place_order;
    deliver_to = buy.deliver_to;
  }),
  buy.span,
)
compile_node (AnalyzedNode.sell sell) = ok (
  Action.sell (record {
    item = sell.item_id;
    quantity = sell.quantity;
    min_price = sell.min_price;
    place_order = sell.place_order;
  }),
  sell.span,
)
compile_node (AnalyzedNode.recycle recycle) = ok (recycle_action recycle, recycle.source.span)
compile_node (AnalyzedNode.commission_ship commission) = ok (
  Action.commission_ship (record {
    ship_class = commission.ship_class;
    provide_materials = commission.provide_materials;
  }),
  commission.span,
)

-- The nodes, and the spans that `source_map` collects.
unfoldable pub compile_nodes : List AnalyzedNode → Result CompileError (List PlanNode × List Span)
unfolding compile_node
compile_nodes [] = ok ([], [])
compile_nodes (node ∷ nodes) = do
  (done, span) ← compile_node node
  (plan, spans) ← compile_nodes nodes
  ok (
    PlanNode.action (record { action = TemplateAction.materialized done; source = span }) ∷ plan,
    span ∷ spans,
  )

unfoldable pub compile : AnalyzedProgram → Result CompileError CompiledProgram
unfolding compile_nodes
compile program = do
  (nodes, spans) ← compile_nodes program.statements
  ok (record {
    schema_version = compiled_program_schema_version;
    nodes = nodes;
    source_map = record { actions = spans };
  })

-- ===== src/Lang/Words.antt =====
-- The words that prayer-lang/src/render/mod.rs writes for a statement behind its keyword, before
-- `render_arg` quotes them.
use prayer_rs.Prelude.{
  ℕ, String, Bool, true, false, Option, none, some, List, [], ◌∷◌, ◌++◌, if◌then◌else◌, nat_eq,
}
use prayer_rs.Prelude.Decimal.{print, print_i64}
use prayer_rs.Lang.Ast.{
  BuyNode, SellNode, CommissionShipNode, CraftClauses, CraftNode, RecycleNode, TransferSubject,
  TransferEndpoint, TransferNode, TransferItem,
}

-- A clause's word and its value, if it is given.
abbrev pub clause_words : String → Option String → List String
clause_words clause none = []
clause_words clause (some value) = clause ∷ value ∷ []

abbrev pub price_words : Option ℕ → List String
price_words none = []
price_words (some price) = "at" ∷ print price ∷ []

abbrev pub order_words : Bool → List String
order_words true = "order" ∷ []
order_words false = []

unfoldable pub buy_words : BuyNode → List String
buy_words buy =
    order_words buy.place_order
    ++ print buy.quantity ∷ buy.item_id ∷ price_words buy.max_price
    ++ clause_words "to" buy.deliver_to

abbrev pub quantity_words : Option ℕ → List String
quantity_words none = []
quantity_words (some quantity) = print quantity ∷ []

abbrev pub item_words : Option String → List String
item_words none = []
item_words (some item) = item ∷ []

unfoldable pub sell_words : SellNode → List String
sell_words sell =
    order_words sell.place_order
    ++ (quantity_words sell.quantity ++ (item_words sell.item_id ++ price_words sell.min_price))

unfoldable pub commission_words : CommissionShipNode → List String
commission_words commission =
    commission.ship_class ∷ (if commission.provide_materials then "with" ∷ "materials" ∷ [] else [])

unfoldable pub craft_clause_words : CraftClauses → List String
craft_clause_words clauses =
    clause_words "from" clauses.source
    ++ (clause_words "to" clauses.deliver_to
        ++ (clause_words "at" clauses.facility_id ++ clause_words "preset" clauses.preset))

unfoldable pub craft_words : CraftNode → List String
unfolding craft_clause_words
craft_words craft =
    craft.recipe_id ∷ (if nat_eq craft.quantity 1 then [] else print craft.quantity ∷ [])
    ++ craft_clause_words craft.clauses

unfoldable pub recycle_words : RecycleNode → List String
unfolding craft_clause_words
recycle_words recycle =
    recycle.recipe_id ∷ (if nat_eq recycle.quantity 1 then [] else print recycle.quantity ∷ [])
    ++ craft_clause_words recycle.clauses

unfoldable pub subject_to_words : TransferSubject → List String
subject_to_words TransferSubject.all_cargo = []
subject_to_words (TransferSubject.credits qty) = "credits" ∷ print_i64 qty ∷ []
subject_to_words (TransferSubject.ship id) = "ship" ∷ id ∷ []
subject_to_words (TransferSubject.ship_module id) = "module" ∷ id ∷ []
subject_to_words (TransferSubject.item id none) = id ∷ []
subject_to_words (TransferSubject.item id (some qty)) = id ∷ print_i64 qty ∷ []

unfoldable pub endpoint_words : TransferEndpoint → List String
endpoint_words TransferEndpoint.cargo = "cargo" ∷ []
endpoint_words TransferEndpoint.storage = "storage" ∷ []
endpoint_words TransferEndpoint.faction = "faction" ∷ []
endpoint_words (TransferEndpoint.faction_tag tag) = "faction" ∷ tag ∷ []
endpoint_words (TransferEndpoint.player name) = "player" ∷ name ∷ []
endpoint_words (TransferEndpoint.space (some id)) = "space" ∷ id ∷ []
endpoint_words (TransferEndpoint.space none) = "space" ∷ []
endpoint_words (TransferEndpoint.commission id) = "commission" ∷ id ∷ []

unfoldable pub transfer_clause_words : String → Option TransferEndpoint → List String
unfolding endpoint_words
transfer_clause_words clause none = []
transfer_clause_words clause (some endpoint) = clause ∷ endpoint_words endpoint

-- A transfer without a block.
unfoldable pub transfer_words : TransferNode → List String
unfolding subject_to_words transfer_clause_words
transfer_words transfer =
    subject_to_words transfer.subject
    ++ (transfer_clause_words "from" transfer.from ++ transfer_clause_words "to" transfer.to)

-- The line of an item in the block of a transfer.
unfoldable pub item_entry_words : TransferItem → List String
item_entry_words item = item.id ∷ print_i64 item.qty ∷ []

unfoldable pub block_entry_words : List TransferItem → List (List String)
unfolding item_entry_words
block_entry_words [] = []
block_entry_words (item ∷ items) = item_entry_words item ∷ block_entry_words items

-- The words in front of the block.
unfoldable pub block_clause_words : TransferNode → List String
unfolding transfer_clause_words
block_clause_words transfer =
    transfer_clause_words "from" transfer.from ++ transfer_clause_words "to" transfer.to

-- ===== src/Lang/Projection/Requests.antt =====
-- The longer statements of prayer-lang/src/action_projection.rs.
use prayer_rs.Prelude.{
  ℕ, String, Bool, true, false, Option, none, some, List, [], ◌∷◌, ◌++◌, if◌then◌else◌,
}
use Prim.Native.String.{◌++◌ as ◌⊕◌}
use prayer_rs.Prelude.Decimal.{print, print_i64}
use prayer_rs.Actions.Requests.{
  GoTarget, TransferItem, TransferSubject, TransferEndpoint, TransferRequest, BuyRequest,
  SellRequest, CraftRequest, RecycleRequest, CommissionShipRequest, ServiceTransferRequest,
  TradeItem, TradeOfferRequest, SayRequest,
}
use prayer_rs.Lang.Words.{order_words, price_words, quantity_words, item_words, clause_words}

-- A statement: a keyword with words, or the lines of a block and the words behind the block.
pub data Statement : Type 0 where
  line : String → List String → Statement
  block : List (List String) → List String → Statement

abbrev pub option_words : Option String → List String
option_words none = []
option_words (some word) = word ∷ []

abbrev pub bool_word : Bool → String
bool_word true = "true"
bool_word false = "false"

unfoldable pub go_target : GoTarget → String
go_target (GoTarget.identifier value) = value
go_target (GoTarget.system value) = value
go_target (GoTarget.poi value) = value
go_target (GoTarget.coordinate x y) = print_i64 x ⊕ "," ⊕ print_i64 y

unfoldable pub buy_request_words : BuyRequest → List String
buy_request_words request =
    order_words request.place_order
    ++ print request.quantity ∷ request.item ∷ price_words request.max_price
    ++ clause_words "to" request.deliver_to

unfoldable pub sell_request_words : SellRequest → List String
sell_request_words request =
    order_words request.place_order
    ++ (quantity_words request.quantity
        ++ (item_words request.item ++ price_words request.min_price))

unfoldable pub commission_request_words : CommissionShipRequest → List String
commission_request_words request =
    request.ship_class ∷ (if request.provide_materials then "with" ∷ "materials" ∷ [] else [])

unfoldable pub craft_request_words : CraftRequest → List String
craft_request_words request =
    request.recipe_id ∷ print request.quantity ∷ clause_words "from" request.source
    ++ (clause_words "to" request.destination
        ++ (clause_words "at" request.facility_id ++ clause_words "preset" request.preset))

unfoldable pub recycle_request_words : RecycleRequest → List String
recycle_request_words request =
    request.recipe_id ∷ print request.quantity ∷ clause_words "from" request.source
    ++ (clause_words "to" request.destination ++ (clause_words "at" request.facility_id ++ []))

abbrev item_repair_words : Option String → Option ℕ → List String
item_repair_words none quantity = []
item_repair_words (some item) quantity = "with" ∷ item ∷ quantity_words quantity

abbrev target_repair_words : Option String → Option String → Option ℕ → List String
target_repair_words none item quantity = []
target_repair_words (some target) item quantity = target ∷ item_repair_words item quantity

-- `render_repair`
unfoldable pub repair_words : ServiceTransferRequest → List String
repair_words request = target_repair_words request.target request.item request.quantity

-- `render_refuel`
unfoldable pub refuel_words : ServiceTransferRequest → List String
refuel_words request = quantity_words request.quantity ++ clause_words "to" request.target

abbrev pub credits_words : String → Option ℕ → List String
credits_words side none = []
credits_words side (some credits) = side ∷ "credits" ∷ print credits ∷ []

abbrev pub items_words : String → List TradeItem → List String
items_words side [] = []
items_words side (entry ∷ entries) =
    side ∷ print entry.quantity ∷ entry.item ∷ items_words side entries

unfoldable pub trade_words : TradeOfferRequest → List String
trade_words request =
    request.target ∷ credits_words "offer" request.offer_credits
    ++ (items_words "offer" request.offer_items
        ++ (credits_words "request" request.request_credits
            ++ items_words "request" request.request_items))

unfoldable pub say_words : SayRequest → List String
say_words request = request.content ∷ "to" ∷ request.channel ∷ option_words request.target

-- `endpoint`
unfoldable pub request_endpoint_words : TransferEndpoint → List String
request_endpoint_words TransferEndpoint.cargo = "cargo" ∷ []
request_endpoint_words TransferEndpoint.storage = "storage" ∷ []
request_endpoint_words (TransferEndpoint.ship id) = "ship" ∷ id ∷ []
request_endpoint_words TransferEndpoint.faction = "faction" ∷ []
request_endpoint_words (TransferEndpoint.faction_tag tag) = "faction" ∷ tag ∷ []
request_endpoint_words (TransferEndpoint.player name) = "player" ∷ name ∷ []
request_endpoint_words (TransferEndpoint.space (some id)) = "space" ∷ id ∷ []
request_endpoint_words (TransferEndpoint.space none) = "space" ∷ []
request_endpoint_words (TransferEndpoint.commission id) = "commission" ∷ id ∷ []

-- `render_transfer_item`
unfoldable pub request_item_words : TransferItem → List String
request_item_words item = item.id ∷ print item.quantity ∷ []

abbrev pub item_rows : List TransferItem → List (List String)
item_rows [] = []
item_rows (item ∷ items) = (item.id ∷ print item.quantity ∷ []) ∷ item_rows items

-- The words of both endpoints, behind the subject.
unfoldable pub between_words : TransferRequest → List String
unfolding request_endpoint_words
between_words request =
    "from" ∷ request_endpoint_words request.from ++ "to" ∷ request_endpoint_words request.to

abbrev transfer_of : TransferSubject → List String → Statement
transfer_of (TransferSubject.items items) between = Statement.block (item_rows items) between
transfer_of TransferSubject.all_cargo between = Statement.line "transfer" ("all" ∷ between)
transfer_of (TransferSubject.credits quantity) between =
    Statement.line "transfer" ("credits" ∷ print quantity ∷ between)
transfer_of (TransferSubject.item id (some quantity)) between =
    Statement.line "transfer" (id ∷ print quantity ∷ between)
transfer_of (TransferSubject.item id none) between = Statement.line "transfer" (id ∷ between)
transfer_of (TransferSubject.ship id) between = Statement.line "transfer" ("ship" ∷ id ∷ between)
transfer_of (TransferSubject.ship_module id) between =
    Statement.line "transfer" ("module" ∷ id ∷ between)

-- `render_transfer`
unfoldable pub transfer_statement : TransferRequest → Statement
unfolding between_words
transfer_statement request = transfer_of request.subject (between_words request)

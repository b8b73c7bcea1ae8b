-- ===== src/Lang/Pipeline/Clauses.antt =====
-- Statements with clauses of their own in prayer-lang/src/parser.rs: what is shown for their actions is
-- read back.
use prayer_rs.Prelude.{ℕ, String, ◌≡◌, refl, ◌<◌, some, [], ◌∷◌, arith, ok}
use prayer_rs.Prelude.Decimal.{print}
use prayer_rs.Prelude.Assoc.{lookup, string_Eq}
use prayer_rs.Actions.{Action}
use prayer_rs.Actions.Requests.{
  BuyRequest, SellRequest, CraftRequest, RecycleRequest, CommissionShipRequest,
}
use prayer_rs.Lang.Ast.{Span}
use prayer_rs.Prelude.Text.{to_ascii_lowercase}
use prayer_rs.Lang.Catalog.{default_command_catalog}
use prayer_rs.Lang.Clauses.{positive_token}
use prayer_rs.Lang.Commands.{command_statement, command}
use prayer_rs.Lang.Craft.{parse_craft_parts, parse_recycle_parts}
use prayer_rs.Lang.Compile.Command.{command_action}
use prayer_rs.Lang.Analysis.Program.{arg_kind}
use prayer_rs.Lang.Words.{buy_words, sell_words, craft_clause_words}
use prayer_rs.Lang.RoundTrip.Trade.{IsAmount, IsBuy, parse-buy_words}
use prayer_rs.Lang.RoundTrip.Sell.{IsSell, parse-sell_words}
use prayer_rs.Lang.RoundTrip.Craft.{IsClauses, craft_clauses-craft_clause_words, read_quantity}
use prayer_rs.Lang.Projection.Requests.{
  buy_request_words, sell_request_words, craft_request_words, recycle_request_words,
  commission_request_words,
}
use prayer_rs.Lang.Pipeline.{read_line}
use prayer_rs.Lang.Pipeline.Readable.{IsQuantity, buy_of, sell_of, craft_of, recycle_of, no_span}
use prayer_rs.Lang.Pipeline.Numbers.{parse_u64-quantity, read_words_as}

pub read_buy :
    (request : BuyRequest) (span : Span)
    → IsBuy (buy_of request no_span)
    → read_line "buy" (buy_request_words request) span ≡ some (Action.buy request ∷ [])
unfolding read_line buy_request_words buy_words
read_buy request span h = ground (
  arith,
  parse-buy_words (buy_of request span)
      (record { amount = h.amount; price = h.price; priced = h.priced; store = h.store }),
)

pub read_sell :
    (request : SellRequest) (span : Span)
    → IsSell (sell_of request no_span)
    → read_line "sell" (sell_request_words request) span ≡ some (Action.sell request ∷ [])
unfolding read_line sell_request_words sell_words
read_sell request span h =
    ground
      (arith, parse-sell_words (sell_of request span) (record { parts = h.parts; price = h.price }))

pub read_craft :
    (request : CraftRequest) (span : Span)
    → IsAmount request.quantity × IsClauses (craft_of request)
    → read_line "craft" (craft_request_words request) span ≡ some (Action.craft request ∷ [])
unfolding read_line craft_request_words parse_craft_parts craft_clause_words
read_craft request span h = ground (
  arith,
  read_quantity request.quantity (craft_clause_words (craft_of request)) h.0,
  craft_clauses-craft_clause_words (craft_of request) h.1,
)

pub read_recycle :
    (request : RecycleRequest) (span : Span)
    → IsAmount request.quantity × IsClauses (recycle_of request)
    → read_line "recycle" (recycle_request_words request) span ≡ some (Action.recycle request ∷ [])
unfolding read_line recycle_request_words parse_recycle_parts parse_craft_parts craft_clause_words
read_recycle request span h = ground (
  arith,
  read_quantity request.quantity (craft_clause_words (recycle_of request)) h.0,
  craft_clauses-craft_clause_words (recycle_of request) h.1,
)

pub read_commission_ship :
    (request : CommissionShipRequest) (span : Span)
    → read_line "commission_ship" (commission_request_words request) span
      ≡ some (Action.commission_ship request ∷ [])
unfolding read_line commission_request_words
read_commission_ship request span = ground arith

positive_token-print :
    (n : ℕ) (what : String) → 0 < n → IsQuantity n → positive_token (print n) what ≡ ok n
unfolding positive_token
positive_token-print n what positive h = ground (arith, parse_u64-quantity n h)

modify_order-print :
    (order_id : String) (price_each : ℕ) (span : Span)
    → 0 < price_each
    → IsQuantity price_each
    → command_statement "modify_order" (order_id ∷ "at" ∷ print price_each ∷ []) span
      ≡ command "modify_order" (order_id ∷ print price_each ∷ []) span
unfolding command_statement
modify_order-print order_id price_each span positive h =
    ground (arith, positive_token-print price_each "order price" positive h)

pub read_modify_order :
    (order_id : String) (price_each : ℕ) (span : Span)
    → 0 < price_each
    → IsQuantity price_each
    → read_line "modify_order" (order_id ∷ "at" ∷ print price_each ∷ []) span
      ≡ some (Action.modify_order order_id price_each ∷ [])
unfolding command_action lookup arg_kind default_command_catalog to_ascii_lowercase
read_modify_order order_id price_each span positive h =
    read_words_as "modify_order" (order_id ∷ "at" ∷ print price_each ∷ []) "modify_order"
      (order_id ∷ print price_each ∷ []) span (Action.modify_order order_id price_each)
      (modify_order-print order_id price_each span positive h) (tt, ((price_each, h, refl), tt))
      (ground (arith, parse_u64-quantity price_each h))

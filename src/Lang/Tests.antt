-- ===== src/Lang/Tests.antt =====
-- Runs of the theorems on statements.
use prayer_rs.Prelude.{String, ◌≡◌, refl, true, none, some, List, [], ◌∷◌, Result, ok, err, arith}
use prayer_rs.Prelude.Int.{pos, negsuc}
use prayer_rs.Prelude.Decimal.{print, parse_u64, parse_i64}
use prayer_rs.Lang.Ast.{
  Span, BuyNode, SellNode, CraftNode, RecycleNode, CommissionShipNode, CraftClauses, TransferNode,
  TransferSubject, TransferEndpoint,
}
use prayer_rs.Lang.Lexer.{Chars, lex_transfer_parts, render_args}
use prayer_rs.Lang.Clauses.{
  parse_buy_parts, parse_sell_parts, parse_commission_ship_parts, is_legacy_head,
}
use prayer_rs.Lang.Craft.{parse_craft_parts, parse_recycle_parts, is_craft_clause}
use prayer_rs.Lang.Transfer.{Endpoints, parse_transfer_parts, transfer_clauses, is_transfer_clause}
use prayer_rs.Lang.Words.{
  buy_words, sell_words, craft_words, recycle_words, commission_words, transfer_words,
}
use prayer_rs.Lang.Quoting.{lex-render_args}
use prayer_rs.Lang.RoundTrip.Trade.{parse-buy_words, IsBuy}
use prayer_rs.Lang.RoundTrip.Sell.{parse-sell_words}
use prayer_rs.Lang.RoundTrip.Accepted.{buy-normal, legacy_order-refused}
use prayer_rs.Lang.RoundTrip.Craft.{
  parse-craft_words, parse-recycle_words, parse-commission_words, IsClauses,
}
use prayer_rs.Lang.RoundTrip.Transfer.{parse-transfer_words, transfer_clauses-fuel, IsTransfer}
use prayer_rs.Lang.Transfer.{parse_transfer_block_entries}
use prayer_rs.Lang.Words.{block_clause_words, block_entry_words}
use prayer_rs.Lang.RoundTrip.Block.{IsBlock, parse-block_words}
use prayer_rs.Lang.RoundTrip.Settled.{craft-normal, recycle-normal}
use prayer_rs.Lang.RoundTrip.Moved.{transfer-normal}

abbrev here : Span
here = record { start = 0; end = 9 }

-- Two words: a text with a blank, a quote and a backslash, and no character.
abbrev two_words : List Chars
two_words = (b'a' ∷ b' ' ∷ b'"' ∷ 92 ∷ []) ∷ [] ∷ []

lex-render_args_example : lex_transfer_parts (render_args two_words) ≡ some two_words
lex-render_args_example = lex-render_args two_words

abbrev ore_order : BuyNode
ore_order = record {
  item_id = "iron ore";
  quantity = 12;
  max_price = some 3;
  place_order = true;
  deliver_to = some "storage";
  span = here;
}

ore_order-IsBuy : IsBuy ore_order
ore_order-IsBuy = record {
  amount = (omega arith, omega arith);
  price = (omega arith, omega arith);
  priced = λ e. refl;
  store = (refl, ground arith);
}

parse-buy_words_example : parse_buy_parts (buy_words ore_order) here ≡ ok ore_order
parse-buy_words_example = parse-buy_words ore_order ore_order-IsBuy

abbrev legacy_words : List String
legacy_words = "iron" ∷ "5" ∷ "20" ∷ "order" ∷ []

abbrev legacy_buy : BuyNode
legacy_buy = record {
  item_id = "iron";
  quantity = 5;
  max_price = some 20;
  place_order = true;
  deliver_to = none;
  span = here;
}

legacy_words-read : parse_buy_parts legacy_words here ≡ ok legacy_buy
unfolding parse_buy_parts parse_u64
legacy_words-read = refl

buy-normal_example : parse_buy_parts (buy_words legacy_buy) here ≡ ok legacy_buy
buy-normal_example = buy-normal legacy_words here legacy_buy legacy_words-read (λ e. refl)

iron-legacy : is_legacy_head ("iron" ∷ []) ≡ true
unfolding parse_buy_parts parse_u64
iron-legacy = refl

legacy_order-refused_example :
    (buy : BuyNode) × (parse_buy_parts ("iron" ∷ print 5 ∷ "order" ∷ []) here ≡ ok buy)
    × (parse_buy_parts (buy_words buy) here ≡ err "buy order requires an 'at <price>' clause")
legacy_order-refused_example =
    legacy_order-refused "iron" 5 here iron-legacy (omega arith, omega arith)

abbrev ore_sale : SellNode
ore_sale = record {
  item_id = some "ore";
  quantity = some 7;
  min_price = some 2;
  place_order = true;
  span = here;
}

parse-sell_words_example : parse_sell_parts (sell_words ore_sale) here ≡ ok ore_sale
parse-sell_words_example =
    parse-sell_words ore_sale (record {
      parts = ((omega arith, omega arith), λ e. refl);
      price = (omega arith, omega arith);
    })

abbrev steel_clauses : CraftClauses
steel_clauses = record {
  source = some "cargo";
  deliver_to = some "faction";
  facility_id = some "forge";
  preset = none;
}

steel_clauses-IsClauses : IsClauses steel_clauses
unfolding is_craft_clause
steel_clauses-IsClauses = record {
  source = refl;
  deliver_to = refl;
  facility_id = refl;
  preset = tt;
}

abbrev steel : CraftNode
steel = record { recipe_id = "steel"; quantity = 4; clauses = steel_clauses; span = here }

parse-craft_words_example : parse_craft_parts (craft_words steel) here ≡ ok steel
parse-craft_words_example =
    parse-craft_words steel (omega arith, omega arith) steel_clauses-IsClauses

abbrev scrap : RecycleNode
scrap = record { recipe_id = "steel"; quantity = 1; clauses = steel_clauses; span = here }

parse-recycle_words_example : parse_recycle_parts (recycle_words scrap) here ≡ ok scrap
parse-recycle_words_example =
    parse-recycle_words scrap (omega arith, omega arith) steel_clauses-IsClauses refl

abbrev frigate : CommissionShipNode
frigate = record { ship_class = "frigate"; provide_materials = true; span = here }

parse-commission_words_example :
    parse_commission_ship_parts (commission_words frigate) here ≡ ok frigate
parse-commission_words_example = parse-commission_words frigate

abbrev ore_transfer : TransferNode
ore_transfer = record {
  subject = TransferSubject.item "ore" (some (pos 5));
  items = [];
  from = some TransferEndpoint.faction;
  to = some (TransferEndpoint.space (some "pod"));
  span = here;
}

ore_transfer-IsTransfer : IsTransfer ore_transfer
unfolding is_transfer_clause
ore_transfer-IsTransfer = record {
  subject = ((refl, refl), (omega arith, omega arith));
  from = tt;
  to = refl;
  no_block = refl;
}

parse-transfer_words_example :
    parse_transfer_parts (transfer_words ore_transfer) here ≡ ok ore_transfer
parse-transfer_words_example = parse-transfer_words ore_transfer ore_transfer-IsTransfer

transfer_clauses-fuel_example :
    (result : Result String Endpoints) × (transfer_clauses 4
        (none, none)
        ("from" ∷ "cargo" ∷ "to" ∷ "storage" ∷ [])
      ≡ some result)
    × (transfer_clauses 9 (none, none) ("from" ∷ "cargo" ∷ "to" ∷ "storage" ∷ []) ≡ some result)
transfer_clauses-fuel_example =
    transfer_clauses-fuel 4 9 (none, none) ("from" ∷ "cargo" ∷ "to" ∷ "storage" ∷ []) (omega arith)
      (omega arith)

abbrev ore_block : TransferNode
ore_block = record {
  subject = TransferSubject.all_cargo;
  items = record { id = "ore"; qty = pos 5 } ∷ record { id = "gas"; qty = negsuc 1 } ∷ [];
  from = some TransferEndpoint.cargo;
  to = some (TransferEndpoint.player "ann");
  span = here;
}

ore_block-IsBlock : IsBlock ore_block
unfolding is_transfer_clause
ore_block-IsBlock = record {
  items = ((refl, (omega arith, omega arith)), ((refl, (omega arith, omega arith)), tt));
  some_item = cc;
  subject = refl;
  from = tt;
  to = refl;
}

parse-block_words_example :
    parse_transfer_block_entries
      (block_clause_words ore_block)
      (block_entry_words ore_block.items)
      here
    ≡ ok ore_block
parse-block_words_example = parse-block_words ore_block ore_block-IsBlock

abbrev craft_line : List String
craft_line = "steel" ∷ "04" ∷ "at" ∷ "forge" ∷ "to" ∷ "faction" ∷ "from" ∷ "cargo" ∷ []

craft_line-read : parse_craft_parts craft_line here ≡ ok steel
unfolding parse_craft_parts parse_u64
craft_line-read = refl

craft-normal_example : parse_craft_parts (craft_words steel) here ≡ ok steel
craft-normal_example = craft-normal craft_line here steel craft_line-read

abbrev recycle_line : List String
recycle_line = "steel" ∷ "1" ∷ "at" ∷ "forge" ∷ "to" ∷ "faction" ∷ "from" ∷ "cargo" ∷ []

recycle_line-read : parse_recycle_parts recycle_line here ≡ ok scrap
unfolding parse_recycle_parts parse_u64
recycle_line-read = refl

recycle-normal_example : parse_recycle_parts (recycle_words scrap) here ≡ ok scrap
recycle-normal_example = recycle-normal recycle_line here scrap recycle_line-read

abbrev ore_line : List String
ore_line = "ore" ∷ "+5" ∷ "to" ∷ "space" ∷ "pod" ∷ "from" ∷ "faction" ∷ []

ore_line-read : parse_transfer_parts ore_line here ≡ ok ore_transfer
unfolding parse_transfer_parts parse_i64
ore_line-read = refl

transfer-normal_example : parse_transfer_parts (transfer_words ore_transfer) here ≡ ok ore_transfer
transfer-normal_example = transfer-normal ore_line here ore_transfer ore_line-read

-- ===== src/Lang/Pipeline/Variadic.antt =====
-- Commands with any number of arguments: what prayer-lang/src/action_projection.rs shows for a search
-- and for a trade offer is read back.
use prayer_rs.Prelude.{
  ℕ, zero, suc, String, ◌≡◌, refl, Bool, true, false, Option, none, some, List, [], ◌∷◌, ◌++◌,
  arith, ◌∙◌, ok, append-nil, append_assoc, ◌&&◌, ◌≤◌, ◌==◌, u64_max,
}
use prayer_rs.Prelude.Decimal.{print, parse_u64}
use prayer_rs.Prelude.Assoc.{lookup, string_Eq}
use prayer_rs.Actions.{Action}
use prayer_rs.Actions.Requests.{FindRequest, TradeItem, TradeOfferRequest}
use prayer_rs.Lang.Ast.{Span}
use prayer_rs.Lang.Compile.Command.{command_action}
use prayer_rs.Lang.Compile.Arguments.{
  trade_clauses, empty_offer, trade_offer_action, is_empty_offer,
}
use prayer_rs.Lang.Commands.{command_statement}
use prayer_rs.Lang.RoundTrip.Trade.{print-not_word}
use prayer_rs.Prelude.Text.{to_ascii_lowercase}
use prayer_rs.Lang.Catalog.{default_command_catalog}
use prayer_rs.Lang.Analysis.Program.{arg_kind}
use prayer_rs.Lang.Analysis.Nodes.{ArgSpec, ArgType}
use prayer_rs.Lang.Projection.Requests.{trade_words, items_words, credits_words}
use prayer_rs.Lang.Pipeline.{read_line}
use prayer_rs.Lang.Pipeline.Readable.{IsOffer, AllQuantities, IsOptionalQuantity}
use prayer_rs.Lang.Pipeline.Numbers.{parse_u64-quantity, read_words_as, AllKept, IsKept, specs_of}

abbrev is_any : ArgType → Bool
is_any ArgType.any = true
is_any _ = false

abbrev all_any : List ArgSpec → Bool
all_any [] = true
all_any (spec ∷ specs) = is_any spec.kind && all_any specs

IsKept-any : (kind : ArgType) (arg : String) → is_any kind ≡ true → IsKept kind arg
IsKept-any ArgType.integer arg h = cc h
IsKept-any ArgType.any arg h = tt
IsKept-any ArgType.item_id arg h = tt
IsKept-any ArgType.system_id arg h = tt
IsKept-any ArgType.poi_id arg h = tt
IsKept-any ArgType.go_target arg h = tt
IsKept-any ArgType.ship_id arg h = tt
IsKept-any ArgType.listing_id arg h = tt
IsKept-any ArgType.mission_id arg h = tt
IsKept-any ArgType.module_id arg h = tt
IsKept-any ArgType.recipe_id arg h = tt

arg_kind-any :
    (specs : List ArgSpec) (index : ℕ) → all_any specs ≡ true → is_any (arg_kind specs index) ≡ true
unfolding arg_kind
arg_kind-any [] index h = refl
arg_kind-any (a ∷ []) zero h = ground arith
arg_kind-any (a ∷ []) (suc n) h = ground arith
arg_kind-any (a ∷ b ∷ rest) zero h = ground arith
arg_kind-any (a ∷ b ∷ rest) (suc n) h = let tail = arg_kind-any (b ∷ rest) n (ground arith) in tail

-- A command whose arguments are of any kind keeps them all.
AllKept-any :
    (specs : List ArgSpec) (index : ℕ) (args : List String)
    → all_any specs ≡ true
    → AllKept specs index args
AllKept-any specs index [] h = tt
AllKept-any specs index (arg ∷ args) h = (
  IsKept-any (arg_kind specs index) arg (arg_kind-any specs index h),
  AllKept-any specs (suc index) args h,
)

pub read_find :
    (request : FindRequest) (span : Span)
    → read_line "find" request.targets span ≡ some (Action.find request ∷ [])
unfolding command_statement command_action lookup default_command_catalog to_ascii_lowercase
read_find request span =
    read_words_as "find" request.targets "find" request.targets span (Action.find request) refl
      (AllKept-any (specs_of "find") 0 request.targets refl) refl

abbrev offer : String → List TradeItem → Option ℕ → List TradeItem → Option ℕ → TradeOfferRequest
offer target items credits wanted price = record {
  target = target;
  offer_items = items;
  offer_credits = credits;
  request_items = wanted;
  request_credits = price;
}

offered_credits :
    (target : String) (credits : Option ℕ) (rest : List String)
    → IsOptionalQuantity credits
    → trade_clauses "trade_offer"
        (offer target [] none [] none)
        (credits_words "offer" credits ++ rest)
      ≡ trade_clauses "trade_offer" (offer target [] credits [] none) rest
unfolding trade_clauses
offered_credits target none rest h = refl
offered_credits target (some n) rest h = ground (arith, parse_u64-quantity n h)

print-not_credits : (n : ℕ) → n ≤ u64_max → (print n == "credits") ≡ false
unfolding parse_u64
print-not_credits n = print-not_word "credits" n refl

offered_items :
    (target : String) (before items : List TradeItem) (credits : Option ℕ) (rest : List String)
    → AllQuantities items
    → trade_clauses "trade_offer"
        (offer target before credits [] none)
        (items_words "offer" items ++ rest)
      ≡ trade_clauses "trade_offer" (offer target (before ++ items) credits [] none) rest
unfolding trade_clauses
offered_items target before [] credits rest h = rw (append-nil before)
offered_items target before (entry ∷ items) credits rest h =
    ground
      (arith, parse_u64-quantity entry.quantity h.0, print-not_credits entry.quantity (omega arith))
    ∙ offered_items target (before ++ entry ∷ []) items credits rest h.1
    ∙ rw (append_assoc before (entry ∷ []) items)

requested_credits :
    (target : String) (items : List TradeItem) (offered credits : Option ℕ) (rest : List String)
    → IsOptionalQuantity credits
    → trade_clauses "trade_offer"
        (offer target items offered [] none)
        (credits_words "request" credits ++ rest)
      ≡ trade_clauses "trade_offer" (offer target items offered [] credits) rest
unfolding trade_clauses
requested_credits target items offered none rest h = refl
requested_credits target items offered (some n) rest h = ground (arith, parse_u64-quantity n h)

requested_items :
    (target : String) (items : List TradeItem) (offered credits : Option ℕ)
    (before wanted : List TradeItem)
    → AllQuantities wanted
    → trade_clauses "trade_offer"
        (offer target items offered before credits)
        (items_words "request" wanted)
      ≡ ok (offer target items offered (before ++ wanted) credits)
unfolding trade_clauses
requested_items target items offered credits before [] h = rw (append-nil before)
requested_items target items offered credits before (entry ∷ wanted) h =
    ground
      (arith, parse_u64-quantity entry.quantity h.0, print-not_credits entry.quantity (omega arith))
    ∙ requested_items target items offered credits (before ++ entry ∷ []) wanted h.1
    ∙ rw (append_assoc before (entry ∷ []) wanted)

trade_offer_action-trade_clauses :
    (target : String) (words : List String) (request : TradeOfferRequest)
    → trade_clauses "trade_offer" (empty_offer target) words ≡ ok request
    → is_empty_offer request ≡ false
    → trade_offer_action "trade_offer" (target ∷ words) ≡ ok (Action.trade_offer request)
unfolding trade_offer_action empty_offer trade_clauses
trade_offer_action-trade_clauses target [] request h something = ground (arith, h, something)
trade_offer_action-trade_clauses target (side ∷ rest) request h something =
    ground (arith, h, something)

pub read_trade_offer :
    (request : TradeOfferRequest) (span : Span)
    → IsOffer request
    → read_line "trade_offer" (trade_words request) span ≡ some (Action.trade_offer request ∷ [])
unfolding command_statement command_action lookup default_command_catalog to_ascii_lowercase
    empty_offer trade_words
read_trade_offer request span h =
    let wanted = items_words "request" request.request_items in
    let priced = credits_words "request" request.request_credits ++ wanted in
    let listed = items_words "offer" request.offer_items ++ priced in
    read_words_as "trade_offer" (trade_words request) "trade_offer" (trade_words request) span
      (Action.trade_offer request) refl
      (AllKept-any (specs_of "trade_offer") 0 (trade_words request) refl)
      (trade_offer_action-trade_clauses request.target
        (credits_words "offer" request.offer_credits ++ listed) request
        (offered_credits request.target request.offer_credits listed h.offered_credits
          ∙ offered_items request.target [] request.offer_items request.offer_credits priced
              h.offered
          ∙ requested_credits request.target request.offer_items request.offer_credits
              request.request_credits wanted h.requested_credits
          ∙ requested_items request.target request.offer_items request.offer_credits
              request.request_credits [] request.request_items h.requested)
        h.something)

-- ===== src/Lang/Transfer.antt =====
-- The parsers of a transfer statement's words in prayer-lang/src/parser.rs.
use prayer_rs.Prelude.{
  ℕ, zero, suc, String, Bool, not, ◌&&◌, ◌||◌, Option, none, some, List, [], ◌∷◌, if◌then◌else◌,
  ◌==◌, is_some, length, Result, ok, err, ◌>>=◌,
}
use Prim.Native.String.{◌++◌ as ◌⊕◌}
use prayer_rs.Prelude.Int.{ℤ}
use prayer_rs.Prelude.Decimal.{parse_i64}
use prayer_rs.Lang.Ast.{Span, TransferItem, TransferSubject, TransferEndpoint, TransferNode}

unfoldable pub is_transfer_clause : String → Bool
is_transfer_clause token = token == "to" || token == "from"

unfoldable pub unknown_transfer_endpoint_message : String → String
unknown_transfer_endpoint_message endpoint =
    if endpoint == "personal" || endpoint == "self"
    then "unknown transfer endpoint '" ⊕ endpoint ⊕ "'; use 'storage' for personal station storage"
    else if endpoint == "hold" || endpoint == "ship"
    then "unknown transfer endpoint '" ⊕ endpoint ⊕ "'; use 'cargo' for the ship cargo hold"
    else if endpoint == "treasury"
    then "unknown transfer endpoint '" ⊕ endpoint
      ⊕ "'; use 'faction' for faction storage or treasury transfers"
    else "unknown transfer endpoint '" ⊕ endpoint
      ⊕ "'; expected cargo, storage, faction, player <name>, or space [id]"

-- `parts.get(idx).filter(|next| !is_transfer_clause(next))`, and the words behind it.
unfoldable pub endpoint_name : List String → Option (String × List String)
unfolding is_transfer_clause
endpoint_name [] = none
endpoint_name (next ∷ rest) = if is_transfer_clause next then none else some (next, rest)

abbrev pub with_name :
    Option (String × List String)
    → (String → TransferEndpoint)
    → Result String (TransferEndpoint × List String)
    → Result String (TransferEndpoint × List String)
with_name none endpoint otherwise = otherwise
with_name (some (name, rest)) endpoint otherwise = ok (endpoint name, rest)

unfoldable pub parse_transfer_endpoint :
    List String → Result String (TransferEndpoint × List String)
unfolding endpoint_name unknown_transfer_endpoint_message
parse_transfer_endpoint [] = err "transfer endpoint is missing"
parse_transfer_endpoint (head ∷ rest) =
    if head == "cargo"
    then ok (TransferEndpoint.cargo, rest)
    else if head == "storage"
    then ok (TransferEndpoint.storage, rest)
    else if head == "faction"
    then with_name (endpoint_name rest) TransferEndpoint.faction_tag
        (ok (TransferEndpoint.faction, rest))
    else if head == "player"
    then with_name (endpoint_name rest) TransferEndpoint.player
        (err "transfer player endpoint requires a player name")
    else if head == "space"
    then with_name (endpoint_name rest) (λ id. TransferEndpoint.space (some id))
        (ok (TransferEndpoint.space none, rest))
    else if head == "commission"
    then with_name (endpoint_name rest) TransferEndpoint.commission
        (err "transfer commission endpoint requires a commission id")
    else err (unknown_transfer_endpoint_message head)

abbrev pub Endpoints : Type 0
Endpoints = Option TransferEndpoint × Option TransferEndpoint

-- A clause with its endpoint.
unfoldable pub transfer_clause : Endpoints → String → TransferEndpoint → Result String Endpoints
transfer_clause (from, to) clause endpoint =
    if clause == "from" && not (is_some from)
    then ok (some endpoint, to)
    else if clause == "to" && not (is_some to)
    then ok (from, some endpoint)
    else if clause == "from"
    then err "duplicate transfer 'from' clause"
    else if clause == "to"
    then err "duplicate transfer 'to' clause"
    else err "expected transfer clause 'to' or 'from'"

-- A round of the loop over the clauses: the endpoints with that of the next clause, and the words
-- behind it.
unfoldable pub clause_round :
    Endpoints → String → List String → Result String (Endpoints × List String)
unfolding parse_transfer_endpoint transfer_clause
clause_round given clause parts = do
  (endpoint, rest) ← parse_transfer_endpoint parts
  given' ← transfer_clause given clause endpoint
  ok (given', rest)

abbrev pub after_round :
    (Endpoints → List String → Option (Result String Endpoints))
    → Result String (Endpoints × List String)
    → Option (Result String Endpoints)
after_round loop (err message) = some (err message)
after_round loop (ok (given, rest)) = loop given rest

-- The loop, a round for a unit of fuel: none once the fuel is used up.
unfoldable pub transfer_clauses : ℕ → Endpoints → List String → Option (Result String Endpoints)
unfolding clause_round
transfer_clauses fuel given [] = some (ok given)
transfer_clauses zero given (clause ∷ parts) = none
transfer_clauses (suc fuel) given (clause ∷ parts) =
    after_round (transfer_clauses fuel) (clause_round given clause parts)

-- The loop has fuel enough, so the case `none` is never met.
abbrev pub clauses_result : Option (Result String Endpoints) → Result String Endpoints
clauses_result none = err ""
clauses_result (some result) = result

unfoldable pub parse_transfer_clauses : List String → Result String Endpoints
unfolding transfer_clauses
parse_transfer_clauses parts = clauses_result (transfer_clauses (length parts) (none, none) parts)

abbrev pub subject_quantity :
    Option ℤ → (ℤ → TransferSubject) → String → Result String TransferSubject
subject_quantity none subject message = err message
subject_quantity (some qty) subject message = ok (subject qty)

unfoldable pub parse_transfer_subject : List String → Result String TransferSubject
parse_transfer_subject [] = ok TransferSubject.all_cargo
parse_transfer_subject (kind ∷ []) =
    if kind == "credits"
    then err "transfer credits requires a quantity"
    else if kind == "ship"
    then err "transfer ship requires a ship id"
    else if kind == "module"
    then err "transfer module requires a module id"
    else ok (TransferSubject.item kind none)
parse_transfer_subject (kind ∷ value ∷ []) =
    if kind == "credits"
    then subject_quantity (parse_i64 value) TransferSubject.credits
        "transfer credits quantity must be an integer"
    else if kind == "ship"
    then ok (TransferSubject.ship value)
    else if kind == "module"
    then ok (TransferSubject.ship_module value)
    else subject_quantity (parse_i64 value) (λ qty. TransferSubject.item kind (some qty))
        "transfer item quantity must be an integer"
parse_transfer_subject (a ∷ b ∷ c ∷ rest) =
    err "transfer subject must be '<item> [qty]', 'ship <id>', or 'credits <qty>'"

-- The words in front of the first clause, and the words from there on.
unfoldable pub subject_words : List String → List String × List String
unfolding is_transfer_clause
subject_words [] = ([], [])
subject_words (word ∷ rest) =
    let (subject, clauses) = subject_words rest in
    if is_transfer_clause word then ([], word ∷ rest) else (word ∷ subject, clauses)

unfoldable pub parse_transfer_parts : List String → Span → Result String TransferNode
unfolding subject_words parse_transfer_subject parse_transfer_clauses
parse_transfer_parts parts span = do
  subject ← parse_transfer_subject (subject_words parts).0
  (from, to) ← parse_transfer_clauses (subject_words parts).1
  ok (record { subject = subject; items = []; from = from; to = to; span = span })

-- One entry of a block: none for an empty one.
unfoldable pub block_entry : List String → Result String (Option TransferItem)
unfolding is_transfer_clause
block_entry [] = ok none
block_entry (head ∷ rest) =
    if is_transfer_clause head
    then err "transfer block endpoints belong before the item block"
    else elim rest [
      | [] ↦ err "transfer block entry must be '<item> <qty>'"
      | qty ∷ [] ↦ elim (parse_i64 qty) [
        | none ↦ err "transfer block item quantity must be an integer"
        | some n ↦ ok (some (record { id = head; qty = n }))
      ]
      | qty ∷ more ∷ others ↦ err "transfer block entry must be '<item> <qty>'"
    ]

abbrev pub enter_item : Option TransferItem → List TransferItem → List TransferItem
enter_item none items = items
enter_item (some item) items = item ∷ items

unfoldable pub block_items : List (List String) → Result String (List TransferItem)
unfolding block_entry
block_items [] = ok []
block_items (entry ∷ entries) = do
  item ← block_entry entry
  items ← block_items entries
  ok (enter_item item items)

abbrev pub block_node : List TransferItem → Endpoints → Span → Result String TransferNode
block_node [] given span = err "transfer block requires at least one item quantity pair"
block_node (item ∷ items) (from, to) span = ok (record {
  subject = TransferSubject.all_cargo;
  items = item ∷ items;
  from = from;
  to = to;
  span = span;
})

unfoldable pub parse_transfer_block_entries :
    List String → List (List String) → Span → Result String TransferNode
unfolding parse_transfer_clauses block_items
parse_transfer_block_entries parts entries span = do
  given ← parse_transfer_clauses parts
  items ← block_items entries
  block_node items given span

-- ===== src/Lang/RoundTrip/Block.antt =====
-- Round trips of transfers with a block of items.
use prayer_rs.Prelude.{◌≡◌, refl, ◌≢◌, List, [], ◌∷◌, ok, arith, All}
use prayer_rs.Prelude.Int.{IsI64}
use prayer_rs.Prelude.Decimal.{parse_i64-print_i64}
use prayer_rs.Lang.Ast.{TransferItem, TransferSubject, TransferNode}
use prayer_rs.Lang.Transfer.{parse_transfer_block_entries, block_items, block_entry, block_node}
use prayer_rs.Lang.Words.{block_entry_words, block_clause_words, item_entry_words}
use prayer_rs.Lang.RoundTrip.Transfer.{IsFree, IsEnd, parse_clauses-both_words}

-- An item's id is no clause's word.
abbrev pub IsEntry : TransferItem → Type 0
IsEntry item = IsFree item.id × IsI64 item.qty

-- A block has items, and a transfer with one has no other subject.
pub record IsBlock (transfer : TransferNode) : Type 0 where
  pub items : All IsEntry transfer.items
  pub some_item : transfer.items ≢ []
  pub subject : transfer.subject ≡ TransferSubject.all_cargo
  pub from : IsEnd transfer.from
  pub to : IsEnd transfer.to

block_items-block_entry_words :
    (items : List TransferItem)
    → All IsEntry items
    → block_items (block_entry_words items) ≡ ok items
unfolding block_items block_entry_words item_entry_words block_entry
block_items-block_entry_words [] h = refl
block_items-block_entry_words (item ∷ items) h =
    ground (arith, parse_i64-print_i64 item.qty h.0.1, block_items-block_entry_words items h.1)

block_node-same :
    (transfer : TransferNode)
    → transfer.items ≢ []
    → transfer.subject ≡ TransferSubject.all_cargo
    → block_node transfer.items (transfer.from, transfer.to) transfer.span ≡ ok transfer
block_node-same transfer h e = go transfer.items transfer.subject h e
  where
    go :
        (items : List TransferItem) (subject : TransferSubject)
        → items ≢ []
        → subject ≡ TransferSubject.all_cargo
        → block_node items (transfer.from, transfer.to) transfer.span
          ≡ ok (record transfer { items = items; subject = subject })
    go [] subject n e = absurd (n refl)
    go (item ∷ items) subject n e = rw e refl

-- The clauses and the lines written for a transfer with a block are read as that transfer, where it
-- has items and no other subject, no name, id or tag is `to` or `from`, and quantities fit an `i64`.
pub parse-block_words :
    (transfer : TransferNode)
    → IsBlock transfer
    → parse_transfer_block_entries
        (block_clause_words transfer)
        (block_entry_words transfer.items)
        transfer.span
      ≡ ok transfer
unfolding parse_transfer_block_entries block_clause_words
parse-block_words transfer v =
    rw
      (
        parse_clauses-both_words transfer.from transfer.to v.from v.to,
        block_items-block_entry_words transfer.items v.items,
      )
      (block_node-same transfer v.some_item v.subject)

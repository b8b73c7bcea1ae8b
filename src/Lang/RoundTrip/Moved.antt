-- ===== src/Lang/RoundTrip/Moved.antt =====
-- What the parser of transfer statements accepts, and that it is written in words that are read as
-- the same statement.
use mathlib.Core.Path.{subst}
use prayer_rs.Prelude.{
  ℕ, zero, suc, Result, err, String, ◌≡◌, refl, sym, Option, none, List, [], ◌∷◌, ok, arith, All,
  AllOk, bind-AllOk, Option-cases, inl, inr,
}
use prayer_rs.Prelude.Decimal.{parse_i64, parse_i64-IsI64}
use prayer_rs.Lang.Ast.{Span, TransferEndpoint, TransferNode}
use prayer_rs.Lang.Transfer.{
  parse_transfer_parts, parse_transfer_clauses, parse_transfer_endpoint, parse_transfer_subject,
  transfer_clauses, transfer_clause, clause_round, after_round, clauses_result, endpoint_name,
  subject_words, Endpoints,
}
use prayer_rs.Lang.Words.{transfer_words}
use prayer_rs.Lang.RoundTrip.Transfer.{
  IsFree, IsSubject, IsEndpoint, IsEnd, IsTransfer, parse-transfer_words,
}

subject_words-IsFree : (parts : List String) → All IsFree (subject_words parts).0
unfolding subject_words
subject_words-IsFree [] = tt
subject_words-IsFree (word ∷ rest) = ground (arith, subject_words-IsFree rest)

parse_transfer_subject-IsSubject :
    (words : List String) → All IsFree words → AllOk IsSubject (parse_transfer_subject words)
unfolding parse_transfer_subject
parse_transfer_subject-IsSubject [] h = tt
parse_transfer_subject-IsSubject (kind ∷ []) h = ground arith
parse_transfer_subject-IsSubject (kind ∷ value ∷ []) h = elim (Option-cases (parse_i64 value)) [
  | inl e ↦ ground arith
  | inr (z, e) ↦ ground (arith, parse_i64-IsI64 value z e)
]
parse_transfer_subject-IsSubject (a ∷ b ∷ c ∷ rest) h = tt

parse_transfer_endpoint-IsEndpoint :
    (parts : List String)
    → AllOk
        (λ (read : TransferEndpoint × List String). IsEndpoint read.0)
        (parse_transfer_endpoint parts)
unfolding parse_transfer_endpoint endpoint_name
parse_transfer_endpoint-IsEndpoint [] = tt
parse_transfer_endpoint-IsEndpoint (head ∷ []) = ground arith
parse_transfer_endpoint-IsEndpoint (head ∷ next ∷ rest) = ground arith

abbrev AreEnds : Endpoints → Type 0
AreEnds (from, to) = IsEnd from × IsEnd to

transfer_clause-AreEnds :
    (given : Endpoints) (clause : String) (endpoint : TransferEndpoint)
    → AreEnds given
    → IsEndpoint endpoint
    → AllOk AreEnds (transfer_clause given clause endpoint)
unfolding transfer_clause
transfer_clause-AreEnds given clause endpoint hg he = ground arith

clause_round-AreEnds :
    (given : Endpoints) (clause : String) (parts : List String)
    → AreEnds given
    → AllOk (λ (next : Endpoints × List String). AreEnds next.0) (clause_round given clause parts)
unfolding clause_round
clause_round-AreEnds given clause parts h =
    bind-AllOk (λ (read : TransferEndpoint × List String). IsEndpoint read.0)
      (λ (next : Endpoints × List String). AreEnds next.0) (parse_transfer_endpoint parts) _
      (parse_transfer_endpoint-IsEndpoint parts)
      λ (read : TransferEndpoint × List String) (he : IsEndpoint read.0).
        bind-AllOk AreEnds (λ (next : Endpoints × List String). AreEnds next.0)
          (transfer_clause given clause read.0) _ (transfer_clause-AreEnds given clause read.0 h he)
          λ given' h'. h'

after_round-AreEnds :
    (loop : Endpoints → List String → Option (Result String Endpoints))
    (round : Result String (Endpoints × List String))
    → AllOk (λ (next : Endpoints × List String). AreEnds next.0) round
    → ((given : Endpoints) (rest : List String)
        → AreEnds given
        → AllOk AreEnds (clauses_result (loop given rest)))
    → AllOk AreEnds (clauses_result (after_round loop round))
after_round-AreEnds loop (err message) h keep = tt
after_round-AreEnds loop (ok (given, rest)) h keep = keep given rest h

transfer_clauses-AreEnds :
    (fuel : ℕ) (given : Endpoints) (parts : List String)
    → AreEnds given
    → AllOk AreEnds (clauses_result (transfer_clauses fuel given parts))
unfolding transfer_clauses
transfer_clauses-AreEnds fuel given [] h = h
transfer_clauses-AreEnds zero given (clause ∷ parts) h = tt
transfer_clauses-AreEnds (suc fuel) given (clause ∷ parts) h =
    after_round-AreEnds (transfer_clauses fuel) (clause_round given clause parts)
      (clause_round-AreEnds given clause parts h) (transfer_clauses-AreEnds fuel)

abbrev Moved : Span → TransferNode → Type 0
Moved span transfer = IsTransfer transfer × (transfer.span ≡ span)

transfer-Moved :
    (parts : List String) (span : Span) → AllOk (Moved span) (parse_transfer_parts parts span)
unfolding parse_transfer_parts parse_transfer_clauses
transfer-Moved parts span =
    bind-AllOk IsSubject (Moved span) (parse_transfer_subject (subject_words parts).0) _
      (parse_transfer_subject-IsSubject (subject_words parts).0 (subject_words-IsFree parts))
      λ subject hs.
        bind-AllOk AreEnds (Moved span) (parse_transfer_clauses (subject_words parts).1) _
          (transfer_clauses-AreEnds _ (none, none) (subject_words parts).1 (tt, tt))
          λ (ends : Endpoints) (he : AreEnds ends).
            (record { subject = hs; from = he.0; to = he.1; no_block = refl }, refl)

-- An accepted transfer statement without a block is written in words that are read as the same
-- statement.
pub transfer-normal :
    (parts : List String) (span : Span) (transfer : TransferNode)
    → parse_transfer_parts parts span ≡ ok transfer
    → parse_transfer_parts (transfer_words transfer) span ≡ ok transfer
transfer-normal parts span transfer h =
    let (v, same) = subst (AllOk (Moved span)) h (transfer-Moved parts span) in
    rw (sym same) (parse-transfer_words transfer v)

-- ===== src/Lang/RoundTrip/Transfer.antt =====
-- Round trips of transfer statements, and the fuel of the loop over their clauses.
use prayer_rs.Prelude.{
  ℕ, zero, suc, ◌≤◌, ◌<◌, String, ◌≡◌, refl, inl, inr, false, ◌||◌, Option, none, some, List, [],
  ◌∷◌, ◌++◌, ◌==◌, length, Result, ok, err, Bool-cases, arith, AllOk, eq_iff, append-nil,
  bind-AllOk, AllOk-trivial,
}
use prayer_rs.Prelude.Int.{ℤ, IsI64}
use prayer_rs.Prelude.Decimal.{print_i64, parse_i64, parse_i64-print_i64}
use prayer_rs.Lang.Ast.{TransferSubject, TransferEndpoint, TransferNode}
use prayer_rs.Lang.Transfer.{
  parse_transfer_parts, parse_transfer_clauses, parse_transfer_endpoint, parse_transfer_subject,
  is_transfer_clause, clause_round, after_round, transfer_clauses, transfer_clause, endpoint_name,
  subject_words, Endpoints,
}
use prayer_rs.Lang.Words.{transfer_words, subject_to_words, endpoint_words, transfer_clause_words}

endpoint-shorter :
    (parts : List String)
    → AllOk
        (λ (read : TransferEndpoint × List String). length read.1 < suc (length parts))
        (parse_transfer_endpoint parts)
unfolding parse_transfer_endpoint endpoint_name
endpoint-shorter [] = tt
endpoint-shorter (head ∷ []) = ground arith
endpoint-shorter (head ∷ next ∷ rest) = ground arith

round-shorter :
    (given : Endpoints) (clause : String) (parts : List String)
    → AllOk
        (λ (next : Endpoints × List String). length next.1 < suc (length parts))
        (clause_round given clause parts)
unfolding clause_round
round-shorter given clause parts =
    bind-AllOk (λ (read : TransferEndpoint × List String). length read.1 < suc (length parts))
      (λ (next : Endpoints × List String). length next.1 < suc (length parts))
      (parse_transfer_endpoint parts) _ (endpoint-shorter parts)
      λ (read : TransferEndpoint × List String) h.
        bind-AllOk (λ (ends : Endpoints). Unit {0})
          (λ (next : Endpoints × List String). length next.1 < suc (length parts))
          (transfer_clause given clause read.0) _
          (AllOk-trivial (transfer_clause given clause read.0)) (λ ends known. h)

-- Two loops that end with the same result behind a round, where they do on the fewer words there.
after_round-ends :
    (words : ℕ) (f g : Endpoints → List String → Option (Result String Endpoints))
    (round : Result String (Endpoints × List String))
    → AllOk (λ (next : Endpoints × List String). length next.1 < words) round
    → ((given : Endpoints) (rest : List String)
        → length rest < words
        → (result : Result String Endpoints) × (f given rest ≡ some result)
          × (g given rest ≡ some result))
    → (result : Result String Endpoints) × (after_round f round ≡ some result)
      × (after_round g round ≡ some result)
after_round-ends words f g (err message) h ends = (err message, refl, refl)
after_round-ends words f g (ok (given, rest)) h ends = ends given rest h

-- The loop over the clauses of a transfer ends: with fuel for as many rounds as there are words, it
-- has a result, and any two such amounts of fuel have the same one.
pub transfer_clauses-fuel :
    (n m : ℕ) (given : Endpoints) (parts : List String)
    → length parts ≤ n
    → length parts ≤ m
    → (result : Result String Endpoints) × (transfer_clauses n given parts ≡ some result)
      × (transfer_clauses m given parts ≡ some result)
unfolding transfer_clauses
transfer_clauses-fuel n m given [] hn hm = (ok given, refl, refl)
transfer_clauses-fuel zero m given (clause ∷ parts) hn hm = absurd (omega arith)
transfer_clauses-fuel (suc n) zero given (clause ∷ parts) hn hm = absurd (omega arith)
transfer_clauses-fuel (suc n) (suc m) given (clause ∷ parts) hn hm =
    after_round-ends (suc (length parts)) (transfer_clauses n) (transfer_clauses m)
      (clause_round given clause parts) (round-shorter given clause parts)
      λ given' rest h.
        transfer_clauses-fuel n m given' rest (omega (arith, h, hn)) (omega (arith, h, hm))

abbrev pub IsFree : String → Type 0
IsFree word = is_transfer_clause word ≡ false

-- An item's id is no word that starts another subject.
abbrev pub IsItem : String → Type 0
IsItem id = IsFree id × ((id == "credits" || id == "ship" || id == "module") ≡ false)

abbrev pub IsSubject : TransferSubject → Type 0
IsSubject TransferSubject.all_cargo = Unit
IsSubject (TransferSubject.credits qty) = IsI64 qty
IsSubject (TransferSubject.ship id) = IsFree id
IsSubject (TransferSubject.ship_module id) = IsFree id
IsSubject (TransferSubject.item id none) = IsItem id
IsSubject (TransferSubject.item id (some qty)) = IsItem id × IsI64 qty

abbrev pub IsEndpoint : TransferEndpoint → Type 0
IsEndpoint (TransferEndpoint.faction_tag tag) = IsFree tag
IsEndpoint (TransferEndpoint.player name) = IsFree name
IsEndpoint (TransferEndpoint.space (some id)) = IsFree id
IsEndpoint (TransferEndpoint.commission id) = IsFree id
IsEndpoint _ = Unit

abbrev pub IsEnd : Option TransferEndpoint → Type 0
IsEnd none = Unit
IsEnd (some endpoint) = IsEndpoint endpoint

-- What `transfer_words` is the inverse of the parser on: no name is `to` or `from`.
pub record IsTransfer (transfer : TransferNode) : Type 0 where
  pub subject : IsSubject transfer.subject
  pub from : IsEnd transfer.from
  pub to : IsEnd transfer.to
  pub no_block : transfer.items ≡ []

-- A number's text is no word that does not read as a number.
print_i64-not_word :
    (word : String) (z : ℤ) → parse_i64 word ≡ none → IsI64 z → (print_i64 z == word) ≡ false
print_i64-not_word word z e h = elim (Bool-cases (print_i64 z == word)) [
  | inl same ↦ cc ((eq_iff (print_i64 z) word).0 same, parse_i64-print_i64 z h, e)
  | inr differs ↦ differs
]

print_i64-IsFree : (z : ℤ) → IsI64 z → IsFree (print_i64 z)
unfolding is_transfer_clause parse_i64
print_i64-IsFree z h = cc (print_i64-not_word "to" z refl h, print_i64-not_word "from" z refl h)

endpoint-endpoint_words :
    (endpoint : TransferEndpoint) (rest : List String)
    → IsEndpoint endpoint
    → endpoint_name rest ≡ none
    → parse_transfer_endpoint (endpoint_words endpoint ++ rest) ≡ ok (endpoint, rest)
unfolding parse_transfer_endpoint endpoint_words
endpoint-endpoint_words TransferEndpoint.cargo rest h e = refl
endpoint-endpoint_words TransferEndpoint.storage rest h e = refl
endpoint-endpoint_words TransferEndpoint.faction rest h e = ground (arith)
endpoint-endpoint_words (TransferEndpoint.faction_tag tag) rest h e =
    unfold endpoint_name in ground arith
endpoint-endpoint_words (TransferEndpoint.player name) rest h e =
    unfold endpoint_name in ground arith
endpoint-endpoint_words (TransferEndpoint.space (some id)) rest h e =
    unfold endpoint_name in ground arith
endpoint-endpoint_words (TransferEndpoint.space none) rest h e = ground arith
endpoint-endpoint_words (TransferEndpoint.commission id) rest h e =
    unfold endpoint_name in ground arith

abbrev both_words : Option TransferEndpoint → Option TransferEndpoint → List String
both_words from to = transfer_clause_words "from" from ++ transfer_clause_words "to" to

clauses_read :
    (fuel : ℕ) (from to : Option TransferEndpoint)
    → IsEnd from
    → IsEnd to
    → transfer_clauses (suc (suc fuel)) (none, none) (both_words from to) ≡ some (ok (from, to))
unfolding transfer_clauses clause_round transfer_clause_words transfer_clause endpoint_name
clauses_read fuel none none hf ht = refl
clauses_read fuel none (some t) hf ht =
    ground (arith, append-nil (endpoint_words t), endpoint-endpoint_words t [] ht refl)
clauses_read fuel (some f) none hf ht =
    ground (arith, append-nil (endpoint_words f), endpoint-endpoint_words f [] hf refl)
clauses_read fuel (some f) (some t) hf ht = ground (
  arith,
  append-nil (endpoint_words t),
  endpoint-endpoint_words t [] ht refl,
  endpoint-endpoint_words f ("to" ∷ endpoint_words t) hf refl,
)

pub parse_clauses-both_words :
    (from to : Option TransferEndpoint)
    → IsEnd from
    → IsEnd to
    → parse_transfer_clauses (both_words from to) ≡ ok (from, to)
unfolding parse_transfer_clauses
parse_clauses-both_words from to hf ht =
    let words = both_words from to in
    let (result, ends, same) =
      transfer_clauses-fuel (length words) (suc (suc (length words))) (none, none) words
        (omega arith) (omega arith) in
    let read = clauses_read (length words) from to hf ht in cc (ends, same, read)

both_words-start :
    (from to : Option TransferEndpoint)
    → subject_words (both_words from to) ≡ ([], both_words from to)
unfolding subject_words transfer_clause_words is_transfer_clause
both_words-start none none = refl
both_words-start none (some t) = refl
both_words-start (some f) to = refl

subject_words-subject_to_words :
    (subject : TransferSubject) (clauses : List String)
    → IsSubject subject
    → subject_words clauses ≡ ([], clauses)
    → subject_words (subject_to_words subject ++ clauses) ≡ (subject_to_words subject, clauses)
unfolding subject_words subject_to_words is_transfer_clause
subject_words-subject_to_words TransferSubject.all_cargo clauses h e = e
subject_words-subject_to_words (TransferSubject.credits qty) clauses h e =
    ground (arith, print_i64-IsFree qty h)
subject_words-subject_to_words (TransferSubject.ship id) clauses h e = ground arith
subject_words-subject_to_words (TransferSubject.ship_module id) clauses h e = ground arith
subject_words-subject_to_words (TransferSubject.item id none) clauses h e = ground arith
subject_words-subject_to_words (TransferSubject.item id (some qty)) clauses h e =
    ground (arith, print_i64-IsFree qty h.1)

parse_subject-subject_to_words :
    (subject : TransferSubject)
    → IsSubject subject
    → parse_transfer_subject (subject_to_words subject) ≡ ok subject
unfolding parse_transfer_subject subject_to_words
parse_subject-subject_to_words TransferSubject.all_cargo h = refl
parse_subject-subject_to_words (TransferSubject.credits qty) h =
    ground (arith, parse_i64-print_i64 qty h)
parse_subject-subject_to_words (TransferSubject.ship id) h = ground arith
parse_subject-subject_to_words (TransferSubject.ship_module id) h = ground arith
parse_subject-subject_to_words (TransferSubject.item id none) h = ground arith
parse_subject-subject_to_words (TransferSubject.item id (some qty)) h =
    ground (arith, parse_i64-print_i64 qty h.1)

-- The words written for a transfer without a block are read as that transfer, where no name, id or
-- tag is `to` or `from`, an item is not called credits, ship or module, and quantities fit an `i64`.
pub parse-transfer_words :
    (transfer : TransferNode)
    → IsTransfer transfer
    → parse_transfer_parts (transfer_words transfer) transfer.span ≡ ok transfer
unfolding parse_transfer_parts transfer_words
parse-transfer_words transfer v =
    let clauses = both_words transfer.from transfer.to in
    ground (
      arith,
      v.no_block,
      subject_words-subject_to_words transfer.subject clauses v.subject
          (both_words-start transfer.from transfer.to),
      parse_subject-subject_to_words transfer.subject v.subject,
      parse_clauses-both_words transfer.from transfer.to v.from v.to,
    )

-- ===== src/Lang/RoundTrip/Craft.antt =====
-- Round trips of craft, recycle and commission_ship statements.
use prayer_rs.Prelude.{
  ℕ, String, ◌≡◌, refl, ◌∙◌, ◌||◌, true, false, Option, none, some, List, [], ◌∷◌, ◌++◌,
  if◌then◌else◌, ◌==◌, nat_eq, ok, arith,
}
use prayer_rs.Prelude.Decimal.{print, parse_u64, parse_u64-print}
use prayer_rs.Lang.Ast.{Span, CraftClauses, CraftNode, RecycleNode, CommissionShipNode}
use prayer_rs.Lang.Clauses.{parse_commission_ship_parts}
use prayer_rs.Lang.Craft.{
  parse_craft_parts, parse_recycle_parts, is_craft_clause, craft_clauses, craft_quantity,
  no_clauses,
}
use prayer_rs.Lang.Words.{
  craft_words, recycle_words, craft_clause_words, commission_words, clause_words,
}
use prayer_rs.Lang.RoundTrip.Trade.{IsAmount, print-not_word}

abbrev pub IsStore : Option String → Type 0
IsStore none = Unit
IsStore (some store) = (store == "cargo" || store == "storage" || store == "faction") ≡ true

abbrev pub IsName : Option String → Type 0
IsName none = Unit
IsName (some name) = is_craft_clause name ≡ false

-- Stores are stores, and a name is no clause's word.
pub record IsClauses (clauses : CraftClauses) : Type 0 where
  pub source : IsStore clauses.source
  pub deliver_to : IsStore clauses.deliver_to
  pub facility_id : IsName clauses.facility_id
  pub preset : IsName clauses.preset

abbrev given : Option String → Option String → Option String → Option String → CraftClauses
given source deliver_to facility_id preset = record {
  source = source;
  deliver_to = deliver_to;
  facility_id = facility_id;
  preset = preset;
}

read_source :
    (source : Option String) (rest : List String)
    → IsStore source
    → craft_clauses (given none none none none) (clause_words "from" source ++ rest)
      ≡ craft_clauses (given source none none none) rest
unfolding craft_clauses
read_source none rest h = refl
read_source (some store) rest h = ground arith

read_deliver_to :
    (source deliver_to : Option String) (rest : List String)
    → IsStore deliver_to
    → craft_clauses (given source none none none) (clause_words "to" deliver_to ++ rest)
      ≡ craft_clauses (given source deliver_to none none) rest
unfolding craft_clauses
read_deliver_to source none rest h = refl
read_deliver_to source (some store) rest h = ground arith

read_facility_id :
    (source deliver_to facility_id : Option String) (rest : List String)
    → IsName facility_id
    → craft_clauses (given source deliver_to none none) (clause_words "at" facility_id ++ rest)
      ≡ craft_clauses (given source deliver_to facility_id none) rest
unfolding craft_clauses
read_facility_id source deliver_to none rest h = refl
read_facility_id source deliver_to (some id) rest h = ground arith

read_preset :
    (source deliver_to facility_id preset : Option String)
    → IsName preset
    → craft_clauses (given source deliver_to facility_id none) (clause_words "preset" preset)
      ≡ ok (given source deliver_to facility_id preset)
unfolding craft_clauses
read_preset source deliver_to facility_id none h = refl
read_preset source deliver_to facility_id (some name) h = ground arith

pub craft_clauses-craft_clause_words :
    (clauses : CraftClauses)
    → IsClauses clauses
    → craft_clauses no_clauses (craft_clause_words clauses) ≡ ok clauses
unfolding craft_clause_words no_clauses
craft_clauses-craft_clause_words clauses v =
    read_source clauses.source _ v.source
    ∙ read_deliver_to clauses.source clauses.deliver_to _ v.deliver_to
    ∙ read_facility_id clauses.source clauses.deliver_to clauses.facility_id _ v.facility_id
    ∙ read_preset clauses.source clauses.deliver_to clauses.facility_id clauses.preset v.preset

-- Clauses do not begin with a quantity.
clauses_alone :
    (s d f p : Option String)
    → craft_quantity (craft_clause_words (given s d f p))
      ≡ ok (1, craft_clause_words (given s d f p))
unfolding craft_quantity craft_clause_words is_craft_clause
clauses_alone none none none none = refl
clauses_alone none none none (some p) = refl
clauses_alone none none (some f) p = refl
clauses_alone none (some d) f p = refl
clauses_alone (some s) d f p = refl

pub read_quantity :
    (q : ℕ) (rest : List String) → IsAmount q → craft_quantity (print q ∷ rest) ≡ ok (q, rest)
unfolding craft_quantity is_craft_clause parse_u64
read_quantity q rest hq = ground (
  arith,
  parse_u64-print q hq.1,
  print-not_word "from" q refl hq.1,
  print-not_word "to" q refl hq.1,
  print-not_word "at" q refl hq.1,
  print-not_word "preset" q refl hq.1,
  print-not_word "dry_run" q refl hq.1,
)

craft_parts :
    (recipe : String) (q : ℕ) (s d f p : Option String) (span : Span)
    → IsAmount q
    → IsClauses (given s d f p)
    → parse_craft_parts
        (recipe ∷ (if nat_eq q 1 then [] else print q ∷ []) ++ craft_clause_words (given s d f p))
        span
      ≡ ok (record { recipe_id = recipe; quantity = q; clauses = given s d f p; span = span })
unfolding parse_craft_parts
craft_parts recipe q s d f p span hq v = ground (
  arith,
  read_quantity q (craft_clause_words (given s d f p)) hq,
  clauses_alone s d f p,
  craft_clauses-craft_clause_words (given s d f p) v,
)

-- The words written for a craft statement are read as that statement, where its quantity is positive
-- and fits a `u64`, its stores are cargo, storage or faction, and no name is a clause's word.
pub parse-craft_words :
    (craft : CraftNode)
    → IsAmount craft.quantity
    → IsClauses craft.clauses
    → parse_craft_parts (craft_words craft) craft.span ≡ ok craft
unfolding craft_words
parse-craft_words craft hq v =
    let c = craft.clauses in
    craft_parts craft.recipe_id craft.quantity c.source c.deliver_to c.facility_id c.preset
      craft.span hq v

-- The words written for a recycle statement are read as that statement, under the conditions of a
-- craft statement and where it names no preset.
pub parse-recycle_words :
    (recycle : RecycleNode)
    → IsAmount recycle.quantity
    → IsClauses recycle.clauses
    → recycle.clauses.preset ≡ none
    → parse_recycle_parts (recycle_words recycle) recycle.span ≡ ok recycle
unfolding recycle_words parse_recycle_parts
parse-recycle_words recycle hq v e =
    let c = recycle.clauses in
    ground (
      arith,
      craft_parts recycle.recipe_id recycle.quantity c.source c.deliver_to c.facility_id c.preset
          recycle.span hq v,
    )

-- The words written for a commission_ship statement are read as that statement.
pub parse-commission_words :
    (commission : CommissionShipNode)
    → parse_commission_ship_parts (commission_words commission) commission.span ≡ ok commission
unfolding parse_commission_ship_parts commission_words
parse-commission_words commission = ground arith

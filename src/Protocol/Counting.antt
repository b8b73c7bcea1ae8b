-- ===== src/Protocol/Counting.antt =====
-- How often a channel of spacemolt-lib-rs/src/transport/correlator.rs is used.
use prayer_rs.Prelude.{
  ℕ, ◌+◌, ◌≤◌, ◌≡◌, refl, String, some, List, [], ◌∷◌, ◌++◌, if◌then◌else◌, nat_eq, arith,
}
use prayer_rs.Prelude.Assoc.{Assoc, lookup, insert, remove, string_Eq}
use prayer_rs.Protocol.Frames.{Json, ClientError}
use prayer_rs.Protocol.Correlator.{Pending, Outcome, Correlator, channel, all_failed}

abbrev pub one : ℕ → ℕ → ℕ
one n m = if nat_eq n m then 1 else 0

module _ (j : Json) where
  -- How many requests in flight, and how many messages, a channel has.
  abbrev pub waiting : ℕ → Assoc String (Pending j) → ℕ
  waiting n [] = 0
  waiting n ((id, p) ∷ rest) = one n (channel j p) + waiting n rest

  abbrev pub messages : ℕ → List (ℕ × Outcome j) → ℕ
  messages n [] = 0
  messages n ((tx, outcome) ∷ rest) = one n tx + messages n rest

  pub messages-append :
      (n : ℕ) (xs ys : List (ℕ × Outcome j)) → messages n (xs ++ ys) ≡ messages n xs + messages n ys
  messages-append n [] ys = omega arith
  messages-append n ((tx, o) ∷ xs) ys = omega (arith, messages-append n xs ys)

  pub waiting-insert :
      (n : ℕ) (id : String) (p : Pending j) (m : Assoc String (Pending j))
      → waiting n (insert id p m) ≤ one n (channel j p) + waiting n m
  unfolding insert
  waiting-insert n id p [] = omega arith
  waiting-insert n id p ((k, q) ∷ m) = ground (arith, waiting-insert n id p m)

  pub waiting-remove_le :
      (n : ℕ) (id : String) (m : Assoc String (Pending j)) → waiting n (remove id m) ≤ waiting n m
  unfolding remove
  waiting-remove_le n id [] = omega arith
  waiting-remove_le n id ((k, q) ∷ m) = ground (arith, waiting-remove_le n id m)

  pub waiting-remove :
      (n : ℕ) (id : String) (p : Pending j) (m : Assoc String (Pending j))
      → lookup id m ≡ some p
      → one n (channel j p) + waiting n (remove id m) ≤ waiting n m
  unfolding remove lookup
  waiting-remove n id p [] h = cc h
  waiting-remove n id p ((k, q) ∷ m) h =
      ground (arith, h, waiting-remove n id p m, waiting-remove_le n id m)

  pub messages-all_failed :
      (n : ℕ) (error : ClientError j) (m : Assoc String (Pending j))
      → messages n (all_failed j error m) ≡ waiting n m
  messages-all_failed n error [] = refl
  messages-all_failed n error ((id, p) ∷ m) = omega (arith, messages-all_failed n error m)

  -- A channel is used once, by a request in flight or a message, and only if it was drawn.
  pub record IsOnce (c : Correlator j) : Type 0 where
    pub once : (n : ℕ) → waiting n c.pending + messages n c.sent ≤ 1
    pub drawn : (n : ℕ) → c.next_channel ≤ n → waiting n c.pending + messages n c.sent ≤ 0

  -- What does not use a channel more often keeps this.
  pub kept :
      (c d : Correlator j)
      → IsOnce c
      → c.next_channel ≡ d.next_channel
      → ((n : ℕ)
          → waiting n d.pending + messages n d.sent ≤ waiting n c.pending + messages n c.sent)
      → IsOnce d
  kept c d v e less = record {
    once = λ n. omega (arith, v.once n, less n);
    drawn = λ n h. omega (arith, v.drawn n (omega (arith, e, h)), less n);
  }

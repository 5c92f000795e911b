-- ===== src/Server/Players/Count.antt =====
-- The player count of server.go against a counter on the natural numbers.
use unity_gaming_services_go.Prelude.{
  ℕ, ◌+◌, ◌-◌, ◌^◌, ◌<◌, ◌≡◌, refl, ap, ◌∙◌, List, [], ◌∷◌, if◌then◌else◌, arith,
}
use unity_gaming_services_go.Server.{Server}
use unity_gaming_services_go.Server.Players.{
  is_negative, player_joined, player_left, set_current_players,
}

pub data Call : Type 0 where
  joined left : Call
  sets : ℕ → Call

unfoldable pub call : Server → Call → Server
unfolding player_joined player_left set_current_players
call s joined = (player_joined s).0
call s left = (player_left s).0
call s (sets n) = set_current_players n s

unfoldable pub calls : Server → List Call → Server
calls s [] = s
calls s (c ∷ cs) = calls (call s c) cs

-- The counter: one more, one less down to 0, or a new value, 0 for a negative one.
abbrev pub count : ℕ → Call → ℕ
count n joined = n + 1
count n left = n - 1
count n (sets m) = if is_negative m then 0 else m

abbrev pub counts : ℕ → List Call → ℕ
counts n [] = n
counts n (c ∷ cs) = counts (count n c) cs

-- Every count on the way is an int32 that is not negative.
abbrev pub StaysInt32 : ℕ → List Call → Type 0
StaysInt32 n [] = n < 2 ^ 31
StaysInt32 n (c ∷ cs) = (n < 2 ^ 31) × StaysInt32 (count n c) cs

call-count :
    (s : Server) (c : Call)
    → s.state.current_players < 2 ^ 31
    → count s.state.current_players c < 2 ^ 31
    → (call s c).state.current_players ≡ count s.state.current_players c
unfolding call
call-count s joined h k = omega arith
call-count s left h k = ground arith
call-count s (sets n) h k = refl

StaysInt32-start : (n : ℕ) (cs : List Call) → StaysInt32 n cs → n < 2 ^ 31
StaysInt32-start n [] h = h
StaysInt32-start n (c ∷ cs) h = h.0

-- While no count on the way passes the largest int32, any sequence of joins, leaves and settings
-- leaves the number of players that counting gives: one more, one less down to 0, or the new
-- value, 0 for a negative one.
pub calls-counts :
    (s : Server) (cs : List Call)
    → StaysInt32 s.state.current_players cs
    → (calls s cs).state.current_players ≡ counts s.state.current_players cs
unfolding calls
calls-counts s [] h = refl
calls-counts s (c ∷ cs) h = calls-counts (call s c) cs (rw e h.1) ∙ ap (λ n. counts n cs) e
  where
    e : (call s c).state.current_players ≡ count s.state.current_players c
    e = call-count s c h.0 (StaysInt32-start (count s.state.current_players c) cs h.1)

-- Joins and leaves return the count that they leave; a leave keeps a count that is not negative
-- so, a setting always gives such a count, and a join at the largest int32 wraps round to the
-- smallest.
pub player_counts_returned :
    (s : Server) (n : ℕ)
    → ((player_joined s).1 ≡ (player_joined s).0.state.current_players)
      × ((player_left s).1 ≡ (player_left s).0.state.current_players)
      × (s.state.current_players < 2 ^ 31 → (player_left s).1 < 2 ^ 31)
      × ((set_current_players n s).state.current_players < 2 ^ 31)
      × (s.state.current_players ≡ 2 ^ 31 - 1 → (player_joined s).1 ≡ 2 ^ 31)
unfolding player_joined player_left set_current_players
player_counts_returned s n = (refl, refl, (λ h. ground arith), ground arith, (λ h. omega arith))

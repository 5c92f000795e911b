-- ===== src/Server/Players.antt =====
-- The player counts and texts of server.go, which the query responders show. An int32 is its bit
-- pattern: below 2 ^ 31 it is not negative.
pub mod Count
use unity_gaming_services_go.Prelude.{
  ℕ, ◌+◌, ◌-◌, ◌%◌, ◌^◌, ◌&&◌, Bool, Bytes, ltb, leb, if◌then◌else◌,
}
use unity_gaming_services_go.Proto.Wire.{QueryState}
use unity_gaming_services_go.Server.{Server}

-- `s.state.f = v`, under the state's lock.
abbrev set_state : (QueryState → QueryState) → Server → Server
set_state f s = record s { state = f s.state }

-- x > 0 and x < 0 for an int32.
abbrev pub is_positive : ℕ → Bool
is_positive x = ltb 0 x && ltb x (2 ^ 31)

abbrev pub is_negative : ℕ → Bool
is_negative x = leb (2 ^ 31) x

unfoldable pub player_joined : Server → Server × ℕ
player_joined s =
    let n = (s.state.current_players + 1) % 2 ^ 32 in
    (set_state (λ st. record st { current_players = n }) s, n)

unfoldable pub player_left : Server → Server × ℕ
player_left s =
    let n =
      if is_positive s.state.current_players
      then s.state.current_players - 1
      else s.state.current_players in
    (set_state (λ st. record st { current_players = n }) s, n)

unfoldable pub set_current_players : ℕ → Server → Server
set_current_players players s =
    set_state (λ st. record st { current_players = if is_negative players then 0 else players }) s

unfoldable pub set_max_players : ℕ → Server → Server
set_max_players n s = set_state (λ st. record st { max_players = n }) s

unfoldable pub set_server_name : Bytes → Server → Server
set_server_name name s = set_state (λ st. record st { server_name = name }) s

unfoldable pub set_game_type : Bytes → Server → Server
set_game_type game_type s = set_state (λ st. record st { game_type = game_type }) s

unfoldable pub set_game_map : Bytes → Server → Server
set_game_map game_map s = set_state (λ st. record st { game_map = game_map }) s

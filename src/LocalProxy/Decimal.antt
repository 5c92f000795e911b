-- ===== src/LocalProxy/Decimal.antt =====
-- `%d` of package fmt on an int64, as the URLs of localproxy print the server's ID.
pub mod RoundTrip
use unity_gaming_services_go.Prelude.{
  ℕ, zero, suc, ◌+◌, ◌/◌, ◌%◌, List, [], ◌∷◌, ◌++◌, Bytes, ltb, if◌then◌else◌,
}

-- `negsuc n` is -(n + 1).
pub data ℤ : Type 0 where
  pos : ℕ → ℤ
  negsuc : ℕ → ℤ

abbrev pub digit : ℕ → ℕ
digit n = n % 10 + b'0'

-- On fuel: every round divides by ten, so `n` rounds and one more are enough.
decimal_loop : ℕ → ℕ → Bytes → Bytes
decimal_loop zero n out = out
decimal_loop (suc fuel) n out =
    let more = decimal_loop fuel (n / 10) (digit n ∷ out) in
    if ltb n 10 then digit n ∷ out else more

unfoldable pub decimal : ℤ → Bytes
unfolding decimal_loop
decimal (pos n) = decimal_loop (suc n) n []
decimal (negsuc n) = b'-' ∷ decimal_loop (suc (suc n)) (suc n) []

-- ===== src/Proto/Errors.antt =====
-- The texts of the errors that a query is refused with (base.go, sqp/errors.go, a2s/errors.go).
use unity_gaming_services_go.Prelude.{
  ℕ, ◌+◌, ◌-◌, ◌*◌, ◌/◌, ◌%◌, ◌<◌, ◌++◌, ◌≡◌, refl, ap, [], ◌∷◌, Bytes, codes, All, ltb,
  if◌then◌else◌, arith,
}
use unity_gaming_services_go.LocalProxy.Decimal.{pos, decimal}

-- `%x` of a byte slice.
abbrev hex_digit : ℕ → ℕ
hex_digit n = if ltb n 10 then n + b'0' else n - 10 + b'a'

abbrev pub hex : Bytes → Bytes
hex [] = []
hex (b ∷ bs) = hex_digit (b / 16) ∷ hex_digit (b % 16) ∷ hex bs

unfoldable pub unsupported_sqp_version_text : ℕ → Bytes
unsupported_sqp_version_text version = codes "unsupported sqp version: " ++ decimal (pos version)

unfoldable pub unsupported_query_text : Bytes → Bytes
unsupported_query_text header = codes "unsupported query: " ++ hex header

-- The bytes that a text in hexadecimal stands for.
abbrev hex_value : ℕ → ℕ
hex_value d = if ltb d b'a' then d - b'0' else d - b'a' + 10

unfoldable pub unhex : Bytes → Bytes
unhex (x ∷ y ∷ rest) = (hex_value x * 16 + hex_value y) ∷ unhex rest
unhex _ = []

digit-read : (n : ℕ) → n < 16 → hex_value (hex_digit n) ≡ n
digit-read n h = ground arith

-- The header of an unsupported query can be read from the error's text.
pub unhex-hex : (bs : Bytes) → All (λ b. b < 256) bs → unhex (hex bs) ≡ bs
unfolding unhex
unhex-hex [] h = refl
unhex-hex (b ∷ bs) (small, h) =
    rw (digit-read (b / 16) (omega arith), digit-read (b % 16) (omega arith), unhex-hex bs h)
      (ap (λ x. x ∷ bs) (omega arith))

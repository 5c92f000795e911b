-- ===== src/LocalProxy/Decimal/RoundTrip.antt =====
-- The digits of `%d`, read back.
use unity_gaming_services_go.Prelude.{
  ℕ, zero, suc, ◌+◌, ◌-◌, ◌*◌, ◌/◌, ◌<◌, ◌≡◌, refl, ap, ◌∙◌, [], ◌∷◌, Bytes, ltb, arith, Bool-cases,
  inl, inr, ltb→lt,
}
use unity_gaming_services_go.LocalProxy.Decimal.{pos, negsuc, digit, decimal_loop, decimal}

-- The number that digits behind a number give.
unfoldable pub read_digits : ℕ → Bytes → ℕ
read_digits n [] = n
read_digits n (d ∷ ds) = read_digits (n * 10 + (d - b'0')) ds

decimal_loop-read :
    (fuel n : ℕ) (out : Bytes)
    → n < fuel
    → read_digits 0 (decimal_loop fuel n out) ≡ read_digits n out
unfolding read_digits decimal_loop
decimal_loop-read zero n out h = absurd (omega arith)
decimal_loop-read (suc fuel) n out h = elim (Bool-cases (ltb n 10)) [
  | inl last ↦ rw last (ap (λ k. read_digits k out) (omega (arith, ltb→lt n 10 last)))
  | inr more ↦ rw more (
      decimal_loop-read fuel (n / 10) (digit n ∷ out) (ground arith)
      ∙ ap (λ k. read_digits k out) (omega arith))
]

-- The printed digits, read from the left, give the number back, behind a minus sign for a negative
-- one.
pub decimal-read :
    (n : ℕ)
    → (read_digits 0 (decimal (pos n)) ≡ n)
      × ((ds : Bytes) × (decimal (negsuc n) ≡ b'-' ∷ ds) × (read_digits 0 ds ≡ n + 1))
unfolding decimal read_digits
decimal-read n = (
  decimal_loop-read (suc n) n [] (omega arith),
  (
    decimal_loop (suc (suc n)) (suc n) [],
    refl,
    decimal_loop-read (suc (suc n)) (suc n) [] (omega arith) ∙ omega arith,
  ),
)

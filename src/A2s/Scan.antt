-- ===== src/A2s/Scan.antt =====
-- The loop of `parseInfoRequest` against the position of the first null byte.
use unity_gaming_services_go.Prelude.{
  ℕ, zero, suc, ◌+◌, ◌≤◌, ◌≡◌, refl, ap, [], ◌∷◌, Bytes, length, get_or, drop, ◌==◌, if◌then◌else◌,
  arith, dec_lt,
}
use unity_gaming_services_go.A2s.{scan}

-- The position of the first null byte, or of the end, with `n` for the first byte's.
unfoldable pub terminator : Bytes → ℕ → ℕ
terminator [] n = n
terminator (b ∷ rest) n = let m = terminator rest (n + 1) in if b == 0 then n else m

drop-get_or :
    (buf : Bytes) (n : ℕ) → suc n ≤ length buf → drop n buf ≡ get_or buf n 0 ∷ drop (suc n) buf
drop-get_or [] n h = absurd (omega arith)
drop-get_or (b ∷ buf) zero h = refl
drop-get_or (b ∷ buf) (suc n) h = drop-get_or buf n (omega arith)

drop_past : (buf : Bytes) (n : ℕ) → length buf ≤ n → drop n buf ≡ []
drop_past [] zero h = refl
drop_past [] (suc n) h = refl
drop_past (b ∷ buf) zero h = absurd (omega arith)
drop_past (b ∷ buf) (suc n) h = drop_past buf n (omega arith)

-- The index loop of parseInfoRequest, from any index on and for any number of rounds that reaches
-- the end of the packet, gives the position of the first null byte from that index on, or of the
-- end.
pub scan-terminator :
    (buf : Bytes) (rounds n : ℕ)
    → length buf ≤ n + rounds
    → scan buf rounds n ≡ terminator (drop n buf) n
unfolding scan terminator
scan-terminator buf zero n h = rw (drop_past buf n (omega arith))
scan-terminator buf (suc rounds) n h = elim (dec_lt n (length buf)) [
  | yes lt ↦
      let next : drop (n + 1) buf ≡ drop (suc n) buf =
        ap (λ k. drop k buf) {y = suc n} (omega arith) in
      rw (drop-get_or buf n (omega arith), scan-terminator buf rounds (n + 1) (omega arith), next)
        (ground (arith, lt))
  | no ge ↦ rw (drop_past buf n (omega arith)) (ground (arith, ge))
]

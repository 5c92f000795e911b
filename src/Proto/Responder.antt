-- ===== src/Proto/Responder.antt =====
-- The code of a query responder (proto/sqp/sqp.go, proto/a2s/a2s.go) as explicit passing of its
-- `QueryBase`: an error or a panic keeps what was done to the base before it.
use unity_gaming_services_go.Prelude.{Outcome, ok, err, panic, Bytes, ℕ}
use unity_gaming_services_go.Proto.Challenge.{
  QueryError, QueryBase, Readings, generate_challenge, challenge_matches_for_client,
}

abbrev pub Query : Type 0 → Type 0
Query A = QueryBase → QueryBase × Outcome QueryError A

abbrev pub continue :
    {A B : Type 0}
    → QueryBase × Outcome QueryError A
    → (A → Query B)
    → QueryBase × Outcome QueryError B
continue (q, ok a) f = f a q
continue (q, err e) f = (q, err e)
continue (q, panic) f = (q, panic)

infixl 5 ◌>>=◌ ◌>>◌
abbrev pub ◌>>=◌ : {A B : Type 0} → Query A → (A → Query B) → Query B
◌>>=◌ m f q = continue (m q) f

abbrev pub ◌>>◌ : {B : Type 0} → Query (Unit {0}) → Query B → Query B
m >> k = m >>= λ _. k

abbrev pub lift : {A : Type 0} → Outcome QueryError A → Query A
lift r q = (q, r)

abbrev pub generate : Readings → Bytes → Query ℕ
generate r client q = generate_challenge q r client

abbrev pub check : Bytes → ℕ → Query (Unit {0})
check client challenge q = challenge_matches_for_client q client challenge

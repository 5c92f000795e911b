-- ===== src/Server/Binding/Loop/Append.antt =====
-- The loop of `Queries` with one reading more at the end.
use unity_gaming_services_go.Prelude.{
  sym, ◌≡◌, refl, ◌++◌, List, [], ◌∷◌, Bytes, append-nil, append_assoc,
}
use unity_gaming_services_go.Server.{Server}
use unity_gaming_services_go.Server.Queries.{
  Reading, Next, again, stopped, crashed, Turn, turn, round, handle_query, continue_turn, then_next,
}

then_next-nothing :
    (t : Turn) (next : Next) → t.next ≡ next → then_next next t (turn t.server [] again) ≡ t
then_next-nothing t again e = rw (append-nil t.replies, sym e) refl
then_next-nothing t stopped e = refl
then_next-nothing t crashed e = refl

round-alone : (os : Bytes) (s : Server) (x : Reading) → handle_query os (x ∷ []) s ≡ round os s x
unfolding handle_query
round-alone os s x = then_next-nothing (round os s x) (round os s x).next refl

-- Nothing goes on behind a turn that has ended.
again-first :
    (next : Next) (t later : Turn)
    → t.next ≡ next
    → (then_next next t later).next ≡ again
    → (next ≡ again) × (later.next ≡ again)
again-first again t later e h = (refl, h)
again-first stopped t later e h = absurd (cc)
again-first crashed t later e h = absurd (cc)

continue-continue :
    (a b c : Turn) → continue_turn (continue_turn a b) c ≡ continue_turn a (continue_turn b c)
continue-continue a b c = rw (append_assoc a.replies b.replies c.replies) refl

-- The loop over one reading more, when it has not ended before.
pub handle_query-snoc :
    (os : Bytes) (xs : List Reading) (x : Reading) (s : Server)
    → (handle_query os xs s).next ≡ again
    → handle_query os (xs ++ (x ∷ [])) s
      ≡ continue_turn (handle_query os xs s) (round os (handle_query os xs s).server x)
unfolding handle_query
handle_query-snoc os [] x s h = round-alone os s x
handle_query-snoc os (y ∷ xs) x s h =
    let t = round os s y in
    let k = again-first t.next t (handle_query os xs t.server) refl h in
    rw (k.0, handle_query-snoc os xs x t.server k.1)
      (sym (
        continue-continue t (handle_query os xs t.server)
          (round os (handle_query os xs t.server).server x)))

-- ===== src/Tests/Challenges.antt =====
-- Runs of base.go.
use unity_gaming_services_go.Prelude.{
  ℕ, Bytes, List, ◌⊎◌, none, ◌≡◌, ◌≢◌, refl, [], ◌∷◌, ok, err, arith, codes,
}
use unity_gaming_services_go.Proto.Challenge.{
  no_challenges, no_challenge, challenge_mismatch, Readings, ChallengeEntry, generate_challenge,
  challenge_matches_for_client, judge, store, challenge_entry,
}
use unity_gaming_services_go.Proto.Challenge.Laws.{
  generated, matched, challenge_answers_once, Reached, fresh, generates,
}
use unity_gaming_services_go.Proto.Challenge.Race.{
  Label, Occurs, put, World, starts, visits, stores, deletes, matches, Run, next, done, check,
  fresh_challenge_survives, fresh_challenge_lost,
}
use unity_gaming_services_go.Proto.Challenge.Tokens.{token, entry_of, run-token}
use unity_gaming_services_go.Tests.{client, readings, entry, held_base}

abbrev guess : ℕ
guess = 9

abbrev stranger : Bytes
stranger = codes "x"

challenge_answers_once_example :
    ((challenge_matches_for_client (generated no_challenges readings client) client 16909060).1
      ≡ ok tt)
    × (guess ≢ 16909060
        → (challenge_matches_for_client (generated no_challenges readings client) client guess).1
          ≡ err challenge_mismatch)
    × ((challenge_matches_for_client
          (matched (generated no_challenges readings client) client guess)
          client
          guess).1
        ≡ err no_challenge)
challenge_answers_once_example =
    challenge_answers_once no_challenges readings client 1 2 3 4 guess guess refl

abbrev reached : Reached (generated no_challenges readings client)
reached = generates readings client (fresh no_challenges (λ k. refl))

abbrev world : World
world = record { base = held_base; deleting = [] }

abbrev late : World
late = record world { base = record held_base { challenges_last_purged_utc = 9 } }

fresh_challenge_survives_example :
    (challenge_matches_for_client
      (matched (generated late.base readings client) stranger 5)
      client
      16909060).1
    ≡ ok tt
unfolding generate_challenge
fresh_challenge_survives_example =
    fresh_challenge_survives late readings client 1 2 3 4 (matches stranger 5 ∷ []) refl (λ o. o)
      (λ epoch o. absurd o) ((λ e. cc), tt) (next (check stranger 5) done)

abbrev empty : World
empty = record { base = no_challenges; deleting = [] }

-- Two minutes later.
abbrev later : Readings
later = record readings { epoch = 120000000000 }

abbrev renewed : ChallengeEntry
renewed = record { value = 16909060; expiry_utc = 180000000000 }

fresh_challenge_lost_example :
    (u : World) × Run world
      (starts later ∷ visits 120000000000 client ∷ stores client renewed ∷ deletes client ∷ [])
      u
    × ((challenge_matches_for_client u.base client 16909060).1 ≡ err no_challenge)
fresh_challenge_lost_example =
    fresh_challenge_lost world later client entry renewed refl (omega arith) (omega arith)

-- A token is given, tried with a wrong value, and given anew.
abbrev given : List Label
given = stores client renewed ∷ matches client guess ∷ stores client entry ∷ []

abbrev issued : World
issued = record {
  base =
      store client (challenge_entry entry)
        (matched (store client (challenge_entry renewed) no_challenges) client guess);
  deleting = [];
}

run-token_example :
    let verdict = (challenge_matches_for_client issued.base client 16909060).1 in
    (verdict ≡ judge (entry_of (token client none given)) 16909060)
    ⊎ ((verdict ≡ err no_challenge) × Occurs (deletes client) given)
unfolding store
run-token_example =
    run-token {w = empty} {u = issued} client 16909060 refl
      (next (put client renewed) (next (check client guess) (next (put client entry) done)))

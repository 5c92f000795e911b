-- ===== src/Proto/Challenge/Laws.antt =====
-- The life of a challenge: generated, used once, purged when stale.
use unity_gaming_services_go.Prelude.{
  ℕ, ◌+◌, ◌*◌, ◌≤◌, ◌<◌, ◌≡◌, ◌≢◌, refl, ◌⊎◌, inl, inr, ◌↔◌, none, some, Outcome, ok, err, Bytes,
  Bytes-discrete, word32, arith, if_pos, if_neg, Option, Bool-cases, ap, Bool, List, ◌∷◌,
}
use unity_gaming_services_go.Proto.Challenge.{
  challenge_mismatch, no_challenge, rand_failure, ChallengeEntry, Stored, challenge_entry, other,
  Challenges, QueryBase, update, Readings, minute, generate_challenge, judge,
  challenge_matches_for_client, purge_stale_challenges,
}

pub update_self : (m : Challenges) (k : Bytes) (v : Option Stored) → update m k v k ≡ v
update_self m k v = if_pos (Bytes-discrete k k) refl v (m k)

pub update_ne : (m : Challenges) (k j : Bytes) (v : Option Stored) → k ≢ j → update m k v j ≡ m j
update_ne m k j v h = if_neg (Bytes-discrete k j) h v (m j)

pub ruleset challenge_laws = (arith, update_self, update_ne)

-- The base after a generation.
abbrev pub generated : QueryBase → Readings → Bytes → QueryBase
generated q r client = (generate_challenge q r client).0

abbrev pub matched : QueryBase → Bytes → ℕ → QueryBase
matched q client x = (challenge_matches_for_client q client x).0

-- What a successful generation answers and stores.
pub generate_challenge_lem :
    (q : QueryBase) (r : Readings) (client : Bytes) (a b c d : ℕ)
    → r.random ≡ some (a, b, c, d)
    → ((generate_challenge q r client).1 ≡ ok (word32 a b c d))
      × ((generated q r client).challenges client
          ≡ some
              (challenge_entry (record { value = word32 a b c d; expiry_utc = r.stored + minute })))
unfolding generate_challenge
generate_challenge_lem q r client a b c d h = ground (arith, update_self q.challenges client)

-- The supplied value is right: accepted. It is another number: a mismatch.
pub judge_entry :
    (e : ChallengeEntry) (x : ℕ)
    → ((x ≡ e.value) × (judge (some (challenge_entry e)) x ≡ ok tt))
      ⊎ ((x ≢ e.value) × (judge (some (challenge_entry e)) x ≡ err challenge_mismatch))
unfolding judge
judge_entry e x = ground arith

pub matched-none :
    (q : QueryBase) (client : Bytes) (x : ℕ) → (matched q client x).challenges client ≡ none
unfolding challenge_matches_for_client
matched-none q client x = update_self q.challenges client none

-- When the random source answers, the challenge generated for a client is accepted at the
-- client's first try, any other number is a mismatch there, and after a first try with any number
-- the client's next try finds no challenge.
pub challenge_answers_once :
    (q : QueryBase) (r : Readings) (client : Bytes) (a b c d x y : ℕ)
    → r.random ≡ some (a, b, c, d)
    → ((challenge_matches_for_client (generated q r client) client (word32 a b c d)).1 ≡ ok tt)
      × (x ≢ word32 a b c d
          → (challenge_matches_for_client (generated q r client) client x).1
            ≡ err challenge_mismatch)
      × ((challenge_matches_for_client (matched (generated q r client) client x) client y).1
          ≡ err no_challenge)
unfolding challenge_matches_for_client judge
challenge_answers_once q r client a b c d x y h = (
  rw stored (ground arith),
  (λ n. rw stored (ground arith)),
  ap (λ o. judge o y) (update_self (generated q r client).challenges client none),
)
  where
    stored :
        (generated q r client).challenges client
        ≡ some (challenge_entry (record { value = word32 a b c d; expiry_utc = r.stored + minute }))
    stored = (generate_challenge_lem q r client a b c d h).1

-- Generating a challenge for a client, or checking one, leaves the entry of every other client as
-- it was.
pub challenges_of_others :
    (q : QueryBase) (r : Readings) (client stranger : Bytes) (x : ℕ)
    → client ≢ stranger
    → ((generated q r client).challenges stranger ≡ q.challenges stranger)
      × ((matched q client x).challenges stranger ≡ q.challenges stranger)
unfolding generate_challenge challenge_matches_for_client
challenges_of_others q r client stranger x h =
    (store_other, update_ne q.challenges client stranger none h)
  where
    store_other : (generated q r client).challenges stranger ≡ q.challenges stranger
    store_other = ground (arith, update_ne q.challenges client stranger)

-- A failing random source hands its error through and stores nothing.
pub generate_challenge-fails :
    (q : QueryBase) (r : Readings) (client : Bytes)
    → r.random ≡ none
    → ((generate_challenge q r client).1 ≡ err rand_failure)
      × ((generated q r client).challenges ≡ q.challenges)
unfolding generate_challenge
generate_challenge-fails q r client h = ground arith

-- Only entries of the right type are stored.
abbrev pub IsWellFormed : QueryBase → Type 0
IsWellFormed q = (k : Bytes) → q.challenges k ≢ some other

-- The bases that the operations reach.
pub data Reached : QueryBase → Type 0 where
  fresh : (q : QueryBase) → ((k : Bytes) → q.challenges k ≡ none) → Reached q
  generates :
      {q : QueryBase} (r : Readings) (client : Bytes) → Reached q → Reached (generated q r client)
  matches : {q : QueryBase} (client : Bytes) (x : ℕ) → Reached q → Reached (matched q client x)
  purges :
      {q : QueryBase} (epoch : ℕ)
      → Reached q
      → Reached (record q { challenges = purge_stale_challenges epoch q.challenges })

update-WellFormed :
    (m : Challenges) (k j : Bytes) (v : Option Stored)
    → v ≢ some other
    → m j ≢ some other
    → update m k v j ≢ some other
update-WellFormed m k j v hv hm = ground (arith)

-- From a base without challenges, no sequence of generations, checks and purges stores a value of
-- another type than a challenge entry.
pub Reached-IsWellFormed : {q : QueryBase} → Reached q → IsWellFormed q
unfolding generate_challenge challenge_matches_for_client purge_stale_challenges
Reached-IsWellFormed (fresh q h) k = cc (h k)
Reached-IsWellFormed (generates {q = q} r client d) k =
    ground (arith, update-WellFormed q.challenges client k, Reached-IsWellFormed d k)
Reached-IsWellFormed (matches {q = q} client x d) k =
    update-WellFormed q.challenges client k none (λ e. cc) (Reached-IsWellFormed d k)
Reached-IsWellFormed (purges {q = q} epoch d) k = ground (arith, Reached-IsWellFormed d k)

-- When the random source answers, a purge keeps the challenge just generated for a client if its
-- epoch is at most a minute after the challenge was stored, and removes it otherwise.
pub purge-generated :
    (q : QueryBase) (r : Readings) (client : Bytes) (a b c d epoch : ℕ)
    → r.random ≡ some (a, b, c, d)
    → let entry = (generated q r client).challenges client in
      let kept = purge_stale_challenges epoch (generated q r client).challenges client in
      ((epoch ≤ r.stored + minute) × (kept ≡ entry)) ⊎ ((r.stored + minute < epoch) × (kept ≡ none))
unfolding purge_stale_challenges
purge-generated q r client a b c d epoch h =
    rw ((generate_challenge_lem q r client a b c d h).1, purge_stale_challenges) (ground arith)

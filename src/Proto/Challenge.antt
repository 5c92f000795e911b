-- ===== src/Proto/Challenge.antt =====
-- game-server-hosting/server/proto/base.go: `QueryBase`, the challenges handed to query clients.
-- The `sync.Map` is a function from client addresses. Times are nanoseconds.
pub mod Laws
pub mod Race
pub mod Tokens
use unity_gaming_services_go.Prelude.{
  ℕ, ◌+◌, ◌<◌, Bool, List, ◌∷◌, [], Option, none, some, ite, dec_lt, Outcome, ok, err, Bytes,
  Bytes-discrete, ltb, ◌==◌, if◌then◌else◌, word32,
}

-- The errors of the packages proto, proto/sqp and proto/a2s. `unexpected_eof` and `rand_failure` are
-- those that encoding/binary and crypto/rand hand through.
pub data QueryError : Type 0 where
  challenge_malformed challenge_mismatch no_challenge rand_failure : QueryError
  invalid_packet_length unsupported_query not_an_info_request unexpected_eof : QueryError
  unsupported_sqp_version : ℕ → QueryError
  unsupported_query_header : Bytes → QueryError

pub record ChallengeEntry : Type 0 where
  pub value : ℕ
  pub expiry_utc : ℕ

-- The map holds values of any type; the assertion `.(challengeEntry)` fails on `other`.
pub data Stored : Type 0 where
  challenge_entry : ChallengeEntry → Stored
  other : Stored

abbrev pub Challenges : Type 0
Challenges = Bytes → Option Stored

-- `purges` lists the epochs of the goroutines of `purgeStaleChallenges` that have been started.
pub record QueryBase : Type 0 where
  pub challenges : Challenges
  pub challenges_last_purged_utc : ℕ
  pub purges : List ℕ

abbrev pub update : Challenges → Bytes → Option Stored → Challenges
update m k v j = ite (Bytes-discrete k j) v (m j)

abbrev pub no_challenges : QueryBase
no_challenges = record { challenges = λ k. none; challenges_last_purged_utc = 0; purges = [] }

-- What the calls of time.Now and of rand.Read answer while a challenge is generated, in order.
-- The clock of `expiryUTC` is the last reading.
pub record Readings : Type 0 where
  pub since : ℕ
  pub purged : ℕ
  pub epoch : ℕ
  pub random : Option (ℕ × ℕ × ℕ × ℕ)
  pub stored : ℕ

abbrev pub minute : ℕ
minute = 60000000000

-- `time.Since(q.challengesLastPurgedUTC).Minutes() > 0` holds when any time has passed.
unfoldable pub start_purge : Readings → QueryBase → QueryBase
start_purge r q =
    if ltb q.challenges_last_purged_utc r.since
    then record q { challenges_last_purged_utc = r.purged; purges = r.epoch ∷ q.purges }
    else q

unfoldable pub store : Bytes → Stored → QueryBase → QueryBase
store client v q = record q { challenges = update q.challenges client (some v) }

unfoldable pub generate_challenge : QueryBase → Readings → Bytes → QueryBase × Outcome QueryError ℕ
unfolding start_purge store
generate_challenge q r client = elim r.random [
  | none ↦ (start_purge r q, err rand_failure)
  | some (a, b, c, d) ↦
      let v = word32 a b c d in
      (
        store client (challenge_entry (record { value = v; expiry_utc = r.stored + minute }))
            (start_purge r q),
        ok v,
      )
]

-- What the loaded entry says of a supplied challenge.
unfoldable pub judge : Option Stored → ℕ → Outcome QueryError (Unit {0})
judge none challenge = err no_challenge
judge (some other) challenge = err challenge_malformed
judge (some (challenge_entry e)) challenge =
    if challenge == e.value then ok tt else err challenge_mismatch

-- `LoadAndDelete` takes the entry out whatever the verdict.
unfoldable pub challenge_matches_for_client :
    QueryBase → Bytes → ℕ → QueryBase × Outcome QueryError (Unit {0})
unfolding judge
challenge_matches_for_client q client challenge = (
  record q { challenges = update q.challenges client none },
  judge (q.challenges client) challenge,
)

-- `epochUTC.After(entry.expiryUTC)`, of an entry of the right type.
unfoldable pub is_stale : ℕ → Option Stored → Bool
is_stale epoch none = Bool.false
is_stale epoch (some other) = Bool.false
is_stale epoch (some (challenge_entry e)) = ltb e.expiry_utc epoch

-- A run of `purgeStaleChallenges` that nothing interrupts. `Race` has the others.
unfoldable pub purge_stale_challenges : ℕ → Challenges → Challenges
unfolding is_stale
purge_stale_challenges epoch m k = if is_stale epoch (m k) then none else m k

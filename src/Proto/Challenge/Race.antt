-- ===== src/Proto/Challenge/Race.antt =====
-- base.go under concurrency: the goroutines of `purgeStaleChallenges` interleaved with the map
-- operations of `GenerateChallenge` and `ChallengeMatchesForClient`, each of which is atomic.
use unity_gaming_services_go.Prelude.{
  ℕ, ◌+◌, ◌≤◌, ◌<◌, ◌≡◌, ◌≢◌, refl, ◌⊎◌, inl, inr, true, none, some, ok, err, Bytes, word32, arith,
  ltb, lt→ltb, List, [], ◌∷◌, ◌++◌, All, subst, ◌∙◌, ap,
}
use unity_gaming_services_go.Proto.Challenge.{
  no_challenge, ChallengeEntry, challenge_entry, QueryBase, update, Readings, minute, start_purge,
  store, generate_challenge, challenge_matches_for_client, is_stale, judge,
}
use unity_gaming_services_go.Proto.Challenge.Laws.{
  matched, generated, generate_challenge_lem, update_self, update_ne,
}

abbrev pub Occurs : {A : Type 0} → A → List A → Type 0
Occurs x [] = ⊥
Occurs x (y ∷ ys) = (x ≡ y) ⊎ Occurs x ys

-- `deleting` holds the keys that some purge has found stale and will pass to `Delete`.
pub record World : Type 0 where
  pub base : QueryBase
  pub deleting : List Bytes

-- `GenerateChallenge` is `starts` and then, if the random source answers, `stores`. A purge visits
-- a key (with the value that it has at that moment), deletes it later, and ends.
pub data Label : Type 0 where
  starts : Readings → Label
  stores : Bytes → ChallengeEntry → Label
  matches : Bytes → ℕ → Label
  visits : ℕ → Bytes → Label
  deletes : Bytes → Label
  ends : ℕ → Label

pub data Step (w : World) : Label → World → Type 0 where
  start : (r : Readings) → Step w (starts r) (record w { base = start_purge r w.base })
  put :
      (client : Bytes) (e : ChallengeEntry)
      → Step w (stores client e) (record w { base = store client (challenge_entry e) w.base })
  check :
      (client : Bytes) (x : ℕ)
      → Step w (matches client x) (record w { base = matched w.base client x })
  visit :
      (epoch : ℕ) (k : Bytes)
      → Occurs epoch w.base.purges
      → is_stale epoch (w.base.challenges k) ≡ true
      → Step w (visits epoch k) (record w { deleting = k ∷ w.deleting })
  delete :
      (k : Bytes) (front back : List Bytes)
      → w.deleting ≡ front ++ k ∷ back
      → Step w (deletes k) (record {
        base = record w.base { challenges = update w.base.challenges k none };
        deleting = front ++ back;
      })
  end :
      (epoch : ℕ) (front back : List ℕ)
      → w.base.purges ≡ front ++ epoch ∷ back
      → Step w (ends epoch) (record w { base = record w.base { purges = front ++ back } })

pub data Run : World → List Label → World → Type 0 where
  done : {w : World} → Run w [] w
  next : {l : Label} {ls : List Label} {w u v : World} → Step w l u → Run u ls v → Run w (l ∷ ls) v

-- What the environment may do while `client` holds `e`: nobody uses this client's address, and no
-- purge starts after the entry's expiry.
abbrev pub IsQuiet : Bytes → ChallengeEntry → Label → Type 0
IsQuiet client e (starts r) = r.epoch ≤ e.expiry_utc
IsQuiet client e (stores k x) = k ≢ client
IsQuiet client e (matches k x) = k ≢ client
IsQuiet client e (visits epoch k) = Unit {0}
IsQuiet client e (deletes k) = Unit {0}
IsQuiet client e (ends epoch) = Unit {0}

-- The client holds `e`, no purge has marked its key, and none counts the entry as stale.
pub record IsHeld (client : Bytes) (e : ChallengeEntry) (w : World) : Type 0 where
  pub held : w.base.challenges client ≡ some (challenge_entry e)
  pub unmarked : ¬ Occurs client w.deleting
  pub early : (epoch : ℕ) → Occurs epoch w.base.purges → epoch ≤ e.expiry_utc

module _ {A : Type 0} where
  Occurs-middle : (x : A) (xs ys : List A) → Occurs x (xs ++ x ∷ ys)
  Occurs-middle x [] ys = inl refl
  Occurs-middle x (y ∷ xs) ys = inr (Occurs-middle x xs ys)

  Occurs-insert : (x y : A) (xs ys : List A) → Occurs x (xs ++ ys) → Occurs x (xs ++ y ∷ ys)
  Occurs-insert x y [] ys o = inr o
  Occurs-insert x y (z ∷ xs) ys (inl e) = inl e
  Occurs-insert x y (z ∷ xs) ys (inr o) = inr (Occurs-insert x y xs ys o)

Step-IsHeld :
    (client : Bytes) (e : ChallengeEntry) {l : Label} {w u : World}
    → Step w l u
    → IsQuiet client e l
    → IsHeld client e w
    → IsHeld client e u
unfolding start_purge store challenge_matches_for_client is_stale
Step-IsHeld client e {w = w} (start r) q h = record {
  held = ground (arith, h.held);
  unmarked = h.unmarked;
  early = λ epoch. ground (arith, h.early epoch);
}
Step-IsHeld client e {w = w} (put k x) q h = record {
  held = update_ne w.base.challenges k client _ q ∙ h.held;
  unmarked = h.unmarked;
  early = h.early;
}
Step-IsHeld client e {w = w} (check k x) q h = record {
  held = update_ne w.base.challenges k client none q ∙ h.held;
  unmarked = h.unmarked;
  early = h.early;
}
Step-IsHeld client e {w = w} (visit epoch k o stale) q h = record {
  held = h.held;
  unmarked = λ o. elim o [ inl same ↦ not_stale same | inr old ↦ h.unmarked old ];
  early = h.early;
}
  where
    not_stale : ¬ (client ≡ k)
    not_stale same = ground (arith, h.held, h.early epoch o, ap w.base.challenges same, stale)
Step-IsHeld client e {w = w} (delete k front back m) q h = record {
  held = update_ne w.base.challenges k client none other_key ∙ h.held;
  unmarked = λ o. h.unmarked (rw m (Occurs-insert client k front back o));
  early = h.early;
}
  where
    other_key : k ≢ client
    other_key same =
        h.unmarked
          (rw m (subst (λ c. Occurs c (front ++ k ∷ back)) same (Occurs-middle k front back)))
Step-IsHeld client e {w = w} (end epoch front back m) q h = record {
  held = h.held;
  unmarked = h.unmarked;
  early = λ x o. h.early x (rw m (Occurs-insert x epoch front back o));
}

-- However the purges are interleaved, a challenge is kept while its client's address is quiet.
Run-IsHeld :
    (client : Bytes) (e : ChallengeEntry) {ls : List Label} {w u : World}
    → Run w ls u
    → All (IsQuiet client e) ls
    → IsHeld client e w
    → IsHeld client e u
Run-IsHeld client e done q h = h
Run-IsHeld client e (next s r) q h = Run-IsHeld client e r q.1 (Step-IsHeld client e s q.0 h)

-- When the random source answers: if no purge has marked the client's key for deletion and none
-- that runs has an epoch beyond the new expiry, a challenge generated for the client is still
-- accepted after any interleaving with purges and with other clients' requests in which no purge
-- starts beyond that expiry.
pub fresh_challenge_survives :
    (w : World) (r : Readings) (client : Bytes) (a b c d : ℕ) (ls : List Label) {u : World}
    → r.random ≡ some (a, b, c, d)
    → ¬ Occurs client w.deleting
    → ((epoch : ℕ) → Occurs epoch (generated w.base r client).purges → epoch ≤ r.stored + minute)
    → All (IsQuiet client (record { value = word32 a b c d; expiry_utc = r.stored + minute })) ls
    → Run (record w { base = generated w.base r client }) ls u
    → (challenge_matches_for_client u.base client (word32 a b c d)).1 ≡ ok tt
unfolding challenge_matches_for_client
fresh_challenge_survives w r client a b c d ls {u = u} h unmarked early q run =
    rw (Run-IsHeld client e run q start_held).held (ground arith)
  where
    e : ChallengeEntry
    e = record { value = word32 a b c d; expiry_utc = r.stored + minute }

    start_held : IsHeld client e (record w { base = generated w.base r client })
    start_held = record {
      held = (generate_challenge_lem w.base r client a b c d h).1;
      unmarked = unmarked;
      early = early;
    }

-- `GenerateChallenge` is the step `starts` and then the step `stores`.
pub generated-start-put :
    (q : QueryBase) (r : Readings) (client : Bytes) (a b c d : ℕ)
    → r.random ≡ some (a, b, c, d)
    → generated q r client
      ≡ store client
          (challenge_entry (record { value = word32 a b c d; expiry_utc = r.stored + minute }))
          (start_purge r q)
unfolding generate_challenge
generated-start-put q r client a b c d h = rw (h, generate_challenge)

-- If the client's old entry is stale when it asks again, and time has passed since the last
-- purge, there is an interleaving in which the purge that the request itself starts deletes the
-- new challenge, and the right answer is refused.
pub fresh_challenge_lost :
    (w : World) (r : Readings) (client : Bytes) (old new : ChallengeEntry)
    → w.base.challenges client ≡ some (challenge_entry old)
    → old.expiry_utc < r.epoch
    → w.base.challenges_last_purged_utc < r.since
    → (u : World) × Run w
        (starts r ∷ visits r.epoch client ∷ stores client new ∷ deletes client ∷ [])
        u
      × ((challenge_matches_for_client u.base client new.value).1 ≡ err no_challenge)
unfolding challenge_matches_for_client start_purge is_stale store
fresh_challenge_lost w r client old new h stale due = (
  _,
  next (start r) (
      next (visit r.epoch client (rw begun (inl refl)) (rw begun (ground arith)))
        (next (put client new) (next (delete client [] w.deleting refl) done))),
  ap (λ o. judge o new.value)
      (update_self (update (start_purge r w.base).challenges client (some (challenge_entry new)))
        client none),
)
  where
    begun : ltb w.base.challenges_last_purged_utc r.since ≡ true
    begun = lt→ltb _ _ due

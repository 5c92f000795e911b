-- ===== src/Proto/Challenge/Tokens.antt =====
-- The challenges of base.go against a specification: a client holds at most one token, the last one
-- it was given, and any try of it uses it up.
use unity_gaming_services_go.Prelude.{
  ℕ, ◌≡◌, ◌⊎◌, inl, inr, ap, sym, subst, ◌∙◌, Option, none, some, err, ite, if_pos, if_neg, Bytes,
  Bytes-discrete, List, [], ◌∷◌, arith,
}
use unity_gaming_services_go.Proto.Challenge.{
  no_challenge, ChallengeEntry, Stored, challenge_entry, QueryBase, Challenges, update, Readings,
  start_purge, store, challenge_matches_for_client, judge,
}
use unity_gaming_services_go.Proto.Challenge.Laws.{update_self, update_ne}
use unity_gaming_services_go.Proto.Challenge.Race.{
  Occurs, World, Label, starts, stores, matches, visits, deletes, ends, Step, start, put, check,
  visit, delete, end, Run, done, next,
}

-- The specification of one client's token: the purges and the other clients do not matter.
abbrev pub next_token : Bytes → Option ChallengeEntry → Label → Option ChallengeEntry
next_token client held (stores k e) = ite (Bytes-discrete k client) (some e) held
next_token client held (matches k x) = ite (Bytes-discrete k client) none held
next_token client held (starts r) = held
next_token client held (visits epoch k) = held
next_token client held (deletes k) = held
next_token client held (ends epoch) = held

pub token : Bytes → Option ChallengeEntry → List Label → Option ChallengeEntry
token client held [] = held
token client held (l ∷ ls) = token client (next_token client held l) ls

abbrev pub entry_of : Option ChallengeEntry → Option Stored
entry_of none = none
entry_of (some e) = some (challenge_entry e)

-- What the map holds is the client's token, or nothing, for a reason.
abbrev Agrees : Type 0 → Option ChallengeEntry → Option Stored → Type 0
Agrees why held found = (found ≡ entry_of held) ⊎ ((found ≡ none) × why)

widen :
    (D E : Type 0) (held : Option ChallengeEntry) (found : Option Stored)
    → Agrees D held found
    → Agrees (D ⊎ E) held found
widen D E held found (inl e) = inl e
widen D E held found (inr d) = inr (d.0, inl d.1)

challenges-start_purge :
    (r : Readings) (q : QueryBase) → (start_purge r q).challenges ≡ q.challenges
unfolding start_purge
challenges-start_purge r q = ground arith

module _ (client : Bytes) (D : Type 0) where
  -- An update that the specification follows.
  update-Agrees :
      (m : Challenges) (k : Bytes) (new held : Option ChallengeEntry)
      → Agrees D held (m client)
      → Agrees D (ite (Bytes-discrete k client) new held) (update m k (entry_of new) client)
  update-Agrees m k new held h = elim (Bytes-discrete k client) [
    | yes e ↦ inl (
        subst (λ j. update m j (entry_of new) client ≡ entry_of new) (sym e)
          (update_self m client (entry_of new))
        ∙ ap entry_of (sym (if_pos (Bytes-discrete k client) e new held)))
    | no n ↦
        subst (λ x. Agrees D x (update m k (entry_of new) client))
          (sym (if_neg (Bytes-discrete k client) n new held))
          (subst (Agrees D held) (sym (update_ne m k client (entry_of new) n)) h)
  ]

  -- A deletion by a purge, which it does not.
  delete-Agrees :
      (m : Challenges) (k : Bytes) (held : Option ChallengeEntry)
      → Agrees D held (m client)
      → Agrees (D ⊎ (k ≡ client)) held (update m k none client)
  delete-Agrees m k held h = elim (Bytes-discrete k client) [
    | yes e ↦
        inr (subst (λ j. update m j none client ≡ none) (sym e) (update_self m client none), inr e)
    | no n ↦
        widen D (k ≡ client) held _ (subst (Agrees D held) (sym (update_ne m k client none n)) h)
  ]

  Step-Agrees :
      {l : Label} {w u : World} (held : Option ChallengeEntry)
      → Step w l u
      → Agrees D held (w.base.challenges client)
      → Agrees (D ⊎ (deletes client ≡ l)) (next_token client held l) (u.base.challenges client)
  unfolding store challenge_matches_for_client
  Step-Agrees {w} held (start r) h =
      widen D _ held _
        (subst (λ f. Agrees D held (f client)) (sym (challenges-start_purge r w.base)) h)
  Step-Agrees {w} held (put k e) h =
      widen D _ _ _ (update-Agrees w.base.challenges k (some e) held h)
  Step-Agrees {w} held (check k x) h = widen D _ _ _ (update-Agrees w.base.challenges k none held h)
  Step-Agrees held (visit epoch k o s) h = widen D _ held _ h
  Step-Agrees {w} held (delete k front back m) h = elim (delete-Agrees w.base.challenges k held h) [
    | inl e ↦ inl e
    | inr (e, inl d) ↦ inr (e, inl d)
    | inr (e, inr same) ↦ inr (e, inr (ap deletes (sym same)))
  ]
  Step-Agrees held (end epoch front back m) h = widen D _ held _ h

deleted_later :
    (D : Type 0) (client : Bytes) (l : Label) (ls : List Label)
    → (D ⊎ (deletes client ≡ l)) ⊎ Occurs (deletes client) ls
    → D ⊎ Occurs (deletes client) (l ∷ ls)
deleted_later D client l ls (inl (inl d)) = inl d
deleted_later D client l ls (inl (inr e)) = inr (inl e)
deleted_later D client l ls (inr o) = inr (inr o)

Run-Agrees :
    {w : World} {ls : List Label} {u : World} (client : Bytes) (D : Type 0)
    (held : Option ChallengeEntry)
    → Run w ls u
    → Agrees D held (w.base.challenges client)
    → Agrees (D ⊎ Occurs (deletes client) ls) (token client held ls) (u.base.challenges client)
unfolding token
Run-Agrees client D held done h = widen D _ held _ h
Run-Agrees {ls} client D held (next {l} {ls = later} s r) h =
    elim (Run-Agrees client (D ⊎ (deletes client ≡ l)) (next_token client held l) r
      (Step-Agrees client D held s h)) [
        | inl e ↦ inl e
        | inr (e, d) ↦ inr (e, deleted_later D client l later d)
      ]

-- From a base without a challenge of the client, after any interleaving of generations, checks,
-- purges and their deletions, for all clients: what a check answers the client is what a
-- specification answers in which the client holds the last challenge stored for it, if it has
-- made no try since; or it is that there is no challenge, and a purge has deleted the client's
-- entry on the way.
pub run-token :
    {w : World} {ls : List Label} {u : World} (client : Bytes) (x : ℕ)
    → w.base.challenges client ≡ none
    → Run w ls u
    → let verdict = (challenge_matches_for_client u.base client x).1 in
      (verdict ≡ judge (entry_of (token client none ls)) x)
      ⊎ ((verdict ≡ err no_challenge) × Occurs (deletes client) ls)
unfolding challenge_matches_for_client
run-token client x e r = elim (Run-Agrees client ⊥ none r (inl e)) [
  | inl f ↦ inl (ap (λ o. judge o x) f)
  | inr (f, inl d) ↦ absurd d
  | inr (f, inr o) ↦ inr (ap (λ o. judge o x) f, o)
]

-- ===== src/Cache/RoundTrip.antt =====
-- An entry that was inserted (internal/cache/memory.go) is found, and is observed under its ID.
use semblance.Cache.Abstract.{IsCandidate, match_of, similarity}
use semblance.Cache.Insert.{insert-Evicted, insert-entries, insert-IsValid}
use semblance.Cache.Nearest.{Visits, nearest_lem}
use semblance.Cache.Observe.{observe_hit}
use semblance.Cache.Shard
use semblance.Cache.Shard.{
  Entry, Entries, Match, StoredResponse, new_entry, insert_entry, reservoir,
}
use semblance.Cache.Touch.{remove_key}
use semblance.Cache.Valid.{In, key_of, entries, IsValid}
use semblance.Cache.Vector.{length-normalize}
use semblance.Double.{Double, Single, IsOrdered}
use semblance.Policy.Logistic.{Observation}
use semblance.Prelude.{
  ℕ, zero, suc, ◌+◌, ◌^◌, ◌<◌, ◌≡◌, refl, sym, ap, subst, ◌∙◌, inl, inr, Bool, true, List, [], ◌∷◌,
  Option, some, arith, length, take,
}
use semblance.Text.{Text}

take_pos-In : {A : Type 0} (n : ℕ) (x : A) (xs : List A) → 0 < n → In x (take n (x ∷ xs))
take_pos-In zero x xs h = absurd (omega arith)
take_pos-In (suc n) x xs h = inl refl

In-take : {A : Type 0} (n : ℕ) (x : A) (xs : List A) → In x (take n xs) → In x xs
In-take zero x xs h = absurd h
In-take (suc n) x [] h = h
In-take (suc n) x (y ∷ ys) (inl here) = inl here
In-take (suc n) x (y ∷ ys) (inr later) = inr (In-take n x ys later)

first_observation :
    {F : Type 0} (draw : ℕ → ℕ) (max_obs : ℕ) (ob : Observation F)
    → 0 < max_obs
    → reservoir draw max_obs 1 [] ob ≡ some (ob ∷ [])
unfolding reservoir
first_observation draw max_obs ob h = ground arith

module _ {F S : Type 0} ⦃d : Double F⦄ ⦃f : Single F S⦄ where
  inserted-In :
      (sh : Shard.Shard F S) (b : Text) (vec : List S) (resp : StoredResponse)
      → IsValid sh
      → sh.counter + 1 < 2 ^ 64
      → In (new_entry sh b vec resp) (entries (insert_entry sh b vec resp).0)
  inserted-In sh b vec resp v h =
      let e = new_entry sh b vec resp in
      subst (In e) (sym (insert-entries sh b vec resp v h).0)
        (take_pos-In sh.capacity e (entries sh) v.room)

  insert-observe :
      (draw : ℕ → ℕ) (sh : Shard.Shard F S) (b : Text) (vec : List S) (resp : StoredResponse)
      (s : F) (c : Bool)
      → IsValid sh
      → sh.counter + 1 < 2 ^ 64
      → 0 < sh.max_obs
      → let e = new_entry sh b vec resp in
        let (sh', id) = insert_entry sh b vec resp in
        (sh'' : Shard.Shard F S) × (Shard.observe draw sh' b id s c ≡ some (sh'', true))
        × (entries sh''
            ≡ record e { obs = record { s = s; c = c } ∷ []; seen = 1 }
              ∷ remove_key (key_of e) (entries sh'))
  unfolding Shard.add
  insert-observe draw sh b vec resp s c v h room =
      let e = new_entry sh b vec resp in
      let sh' = (insert_entry sh b vec resp).0 in
      let (r, _) = insert-Evicted sh b vec resp v h in
      let (_, id, _) = insert-entries sh b vec resp v h in
      let (sh'', obs, did, taken, seen, _) =
        observe_hit draw sh' e s c (insert-IsValid sh b vec resp v h)
          (inserted-In sh b vec resp v h) (omega arith) in
      let one =
        first_observation draw sh'.max_obs (record { s = s; c = c })
          (omega (arith, r.max_obs_eq)) in
      let same : obs ≡ record { s = s; c = c } ∷ [] = cc (sym taken ∙ one) in
      (
        sh'',
        ap (λ (i : Text). Shard.observe draw sh' b i s c) id ∙ did,
        seen
            ∙ ap
                (λ (o : List (Observation F)).
                  record e { obs = o; seen = 1 } ∷ remove_key (key_of e) (entries sh'))
                same,
      )

  insert-nearest :
      (laws : IsOrdered F) (range : Entries → Entries) (sh : Shard.Shard F S) (b : Text)
      (vec q : List S) (resp : StoredResponse)
      → Visits range
      → IsValid sh
      → sh.counter + 1 < 2 ^ 64
      → length vec ≡ length q
      → ((e : Entry F S) → In e (entries sh) → ¬ IsCandidate b q e)
      → d.lt d.neg_inf (similarity q (new_entry sh b vec resp)) ≡ true
      → let e = new_entry sh b vec resp in
        (Shard.nearest range (insert_entry sh b vec resp).0 b q).1
        ≡ some (match_of e (similarity q e))
  insert-nearest laws range sh b vec q resp visits v h same alone above =
      let e = new_entry sh b vec resp in
      let sh' = (insert_entry sh b vec resp).0 in
      let member = inserted-In sh b vec resp v h in
      let long : length e.vec ≡ length q = length-normalize F vec ∙ same in
      (elim (nearest_lem laws range sh' b q visits (insert-IsValid sh b vec resp v h)) [
        | inl (_, top) ↦ cc (top e member (refl, long))
        | inr (e', _, found, member', like, _, _, _) ↦
            let within : In e' (e ∷ entries sh) =
              In-take sh.capacity e' (e ∷ entries sh)
                (subst (In e') (insert-entries sh b vec resp v h).0 member') in
            (elim within [
              | inl this ↦
                  ap (λ (r : Shard.Shard F S × Option (Match F)). r.1) found
                  ∙ ap (λ (x : Entry F S). some (match_of x (similarity q x))) this
              | inr other ↦ absurd (alone e' other like)
            ])
      ])

  -- Into a valid shard, with room in its counter and in its samples, an entry is inserted. An
  -- observation of the bucket under the returned ID takes: the entry then stands in front, with this
  -- observation alone and a count of one. And where the bucket had no entry as long as a query, a
  -- lookup of the query, if its similarity to the entry is above negative infinity, returns the
  -- stored response under that ID with this similarity and no observation.
  pub insert-observe-nearest :
      (laws : IsOrdered F) (draw : ℕ → ℕ) (range : Entries → Entries) (sh : Shard.Shard F S)
      (b : Text) (vec q : List S) (resp : StoredResponse) (s : F) (c : Bool)
      → Visits range
      → IsValid sh
      → sh.counter + 1 < 2 ^ 64
      → 0 < sh.max_obs
      → length vec ≡ length q
      → ((e : Entry F S) → In e (entries sh) → ¬ IsCandidate b q e)
      → d.lt d.neg_inf (similarity q (new_entry sh b vec resp)) ≡ true
      → let e = new_entry sh b vec resp in
        let (sh', id) = insert_entry sh b vec resp in
        ((sh'' : Shard.Shard F S) × (Shard.observe draw sh' b id s c ≡ some (sh'', true))
          × (entries sh''
              ≡ record e { obs = record { s = s; c = c } ∷ []; seen = 1 }
                ∷ remove_key (key_of e) (entries sh')))
        × ((Shard.nearest range sh' b q).1
            ≡ some (record {
              entry_id = id;
              similarity = similarity q e;
              observations = [];
              response = resp;
            }))
  insert-observe-nearest laws draw range sh b vec q resp s c visits v h room same alone above =
      let (_, id, _) = insert-entries sh b vec resp v h in
      let e = new_entry sh b vec resp in
      (
        insert-observe draw sh b vec resp s c v h room,
        insert-nearest laws range sh b vec q resp visits v h same alone above
            ∙ ap (λ (i : Text). some (record (match_of e (similarity q e)) { entry_id = i }))
                (sym id),
      )

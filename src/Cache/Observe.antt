-- ===== src/Cache/Observe.antt =====
-- `Observe` of internal/cache/memory.go, and its reservoir.
use semblance.Cache.Index.{EntryKey, key_Eq, get_entry}
use semblance.Cache.Recency.{find, find-key}
use semblance.Cache.Shard.{Entry, Shard, reservoir, observe}
use semblance.Cache.Touch.{remove_key, All-In, touch, touch-IsValid}
use semblance.Cache.Valid.{
  All, In, key_of, key_at, entries, IsSound, IsValid, In-find, find-In, key_at-entry,
}
use semblance.Policy.Logistic.{Observation}
use semblance.Prelude.{
  ◌⊎◌, ℕ, ◌+◌, ◌%◌, ◌^◌, ◌≤◌, ◌<◌, ◌≡◌, ◌≢◌, refl, ap, ◌∙◌, inl, inr, Bool, true, false, List, [],
  ◌∷◌, ◌++◌, none, some, arith, ltb, length, get_elem?, set, length-append, length-set, Bool-cases,
  Option-cases,
}

module _ {F : Type 0} where
  -- The reservoir after the `seen`-th observation, for a count that an int64 holds: one that is not
  -- full takes the observation at its end; a full one puts it in the drawn slot, or drops it where
  -- the draw is no slot. It stays within the cap and within the count.
  pub reservoir_cases :
      (draw : ℕ → ℕ) (max_obs seen : ℕ) (obs : List (Observation F)) (ob : Observation F)
      → 0 < seen
      → seen < 2 ^ 63
      → length obs ≤ max_obs
      → length obs < seen
      → (obs' : List (Observation F)) × (reservoir draw max_obs seen obs ob ≡ some obs')
        × (((length obs < max_obs) × (obs' ≡ obs ++ (ob ∷ [])))
            ⊎ ((length obs ≡ max_obs) × (draw seen < max_obs) × (obs' ≡ set obs (draw seen) ob))
            ⊎ ((length obs ≡ max_obs) × (max_obs ≤ draw seen) × (obs' ≡ obs)))
        × (length obs' ≤ max_obs)
        × (length obs' ≤ seen)
  unfolding reservoir
  reservoir_cases draw max_obs seen obs ob pos small cap offered =
      elim (Bool-cases (ltb (length obs) max_obs)) [
        | inl free ↦ (
          obs ++ (ob ∷ []),
          rw free,
          inl (ground arith, refl),
          ground (arith, length-append obs (ob ∷ [])),
          omega (arith, length-append obs (ob ∷ [])),
        )
        | inr full ↦ (elim (Bool-cases (ltb (draw seen) max_obs)) [
          | inl hit ↦ (
            set obs (draw seen) ob,
            ground arith,
            inr (inl (ground arith, ground arith, refl)),
            omega (arith, length-set obs (draw seen) ob),
            omega (arith, length-set obs (draw seen) ob),
          )
          | inr out ↦
              (obs, ground arith, inr (inr (ground arith, ground arith, refl)), cap, omega arith)
        ])
      ]

module _ {F S : Type 0} where
  observe_at :
      (draw : ℕ → ℕ) (sh : Shard F S) (k : EntryKey) (a : ℕ) (e : Entry F S) (s : F) (c : Bool)
      (n : ℕ) (obs : List (Observation F))
      → get_entry k sh.buckets ≡ some a
      → get_elem? sh.heap a ≡ some e
      → (e.seen + 1) % 2 ^ 64 ≡ n
      → reservoir draw sh.max_obs n e.obs (record { s = s; c = c }) ≡ some obs
      → observe draw sh k.0 k.1 s c ≡ some (touch sh a (record e { obs = obs; seen = n }), true)
  unfolding observe
  observe_at draw sh k a e s c n obs here at_a wrap taken =
      let taken' : reservoir draw sh.max_obs ((e.seen + 1) % 2 ^ 64) e.obs (record { s = s; c = c })
          ≡ some obs =
        rw wrap taken in
      rw (here, observe, at_a, taken')
        (ap (λ (m : ℕ). some (touch sh a (record e { obs = obs; seen = m }), true)) wrap)

  -- An observation on an entry of a valid shard: the reservoir decides the entry's observations, the
  -- count goes up by one, the entry moves to the front, and the shard stays valid. It never panics
  -- while the count is an int64.
  pub observe_hit :
      (draw : ℕ → ℕ) (sh : Shard F S) (e : Entry F S) (s : F) (c : Bool)
      → IsValid sh
      → In e (entries sh)
      → e.seen + 1 < 2 ^ 63
      → (sh' : Shard F S) × (obs : List (Observation F)) × (observe draw sh e.bucket e.id s c
          ≡ some (sh', true))
        × (reservoir draw sh.max_obs (e.seen + 1) e.obs (record { s = s; c = c }) ≡ some obs)
        × (entries sh'
            ≡ record e { obs = obs; seen = e.seen + 1 } ∷ remove_key (key_of e) (entries sh))
        × IsValid sh'
  observe_hit draw sh e s c v member small =
      let (a, found, at_a) = In-find sh.heap sh.lru e v.distinct member in
      let sound = All-In (IsSound sh.index sh.counter sh.max_obs) (entries sh) e v.sound member in
      let (obs, taken, _, capped, counted) =
        reservoir_cases draw sh.max_obs (e.seen + 1) e.obs (record { s = s; c = c }) (omega arith)
          small sound.sampled (omega (arith, sound.offered)) in
      let e' : Entry F S = record e { obs = obs; seen = e.seen + 1 } in
      let wrap : (e.seen + 1) % 2 ^ 64 ≡ e.seen + 1 = omega arith in
      let here : get_entry (key_of e) sh.buckets ≡ some a = v.indexed (key_of e) ∙ found in
      let (valid, seen) =
        touch-IsValid sh a e e' found at_a refl
          (record { number = sound.number; sampled = capped; offered = counted }) v in
      (
        touch sh a e',
        obs,
        observe_at draw sh (key_of e) a e s c (e.seen + 1) obs here at_a wrap taken,
        taken,
        seen,
        valid,
      )

  -- In a valid shard, for a bucket and an ID that no entry has, nothing happens and the answer is false.
  pub observe_miss :
      (draw : ℕ → ℕ) (sh : Shard F S) (k : EntryKey) (s : F) (c : Bool)
      → IsValid sh
      → ((e : Entry F S) → In e (entries sh) → key_of e ≢ k)
      → observe draw sh k.0 k.1 s c ≡ some (sh, false)
  unfolding observe
  observe_miss draw sh k s c v absent = elim (Option-cases (find (key_at sh.heap) k sh.lru)) [
    | inl free ↦
        let gone : get_entry k sh.buckets ≡ none = v.indexed k ∙ free in rw (gone, observe) refl
    | inr (a, found) ↦
        let (e, at_a, same) = key_at-entry sh.heap a (find-key (key_at sh.heap) k sh.lru found) in
        absurd (absent e (find-In sh.heap k sh.lru a e found at_a) same)
  ]

  -- An observation on a valid shard whose counts are int64s returns, and the shard stays valid.
  pub observe-IsValid :
      (draw : ℕ → ℕ) (sh : Shard F S) (k : EntryKey) (s : F) (c : Bool)
      → IsValid sh
      → All (λ e. e.seen + 1 < 2 ^ 63) (entries sh)
      → (sh' : Shard F S) × (done : Bool) × (observe draw sh k.0 k.1 s c ≡ some (sh', done))
        × IsValid sh'
  unfolding observe
  observe-IsValid draw sh k s c v small = elim (Option-cases (find (key_at sh.heap) k sh.lru)) [
    | inl free ↦
        let gone : get_entry k sh.buckets ≡ none = v.indexed k ∙ free in
        (sh, false, rw (gone, observe) refl, v)
    | inr (a, found) ↦
        let (e, at_a, same) = key_at-entry sh.heap a (find-key (key_at sh.heap) k sh.lru found) in
        let member = find-In sh.heap k sh.lru a e found at_a in
        let (sh', obs, done, _, _, valid) =
          observe_hit draw sh e s c v member
            (All-In (λ e. e.seen + 1 < 2 ^ 63) (entries sh) e small member) in
        (sh', true, rw (← same) done, valid)
  ]

  pub observe-capacity :
      (draw : ℕ → ℕ) (sh : Shard F S) (k : EntryKey) (s : F) (c : Bool) {sh' : Shard F S}
      {done : Bool}
      → observe draw sh k.0 k.1 s c ≡ some (sh', done)
      → sh'.capacity ≡ sh.capacity
  unfolding observe
  observe-capacity draw sh k s c h = ground arith

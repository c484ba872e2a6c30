-- ===== src/Bench/Bounds.antt =====
-- bench/replay.go: the sizes of what `runArm` keeps.
use semblance.Bench.Counts.{replay_induction}
use semblance.Bench.Replay.{
  State, Settings, Arm, static, verified, exploit, learn, cold_miss, replay, replay_all, start,
  score, run_arm,
}
use semblance.Bench.Scan.{Record, Entry, obs_window, append_obs, insert_entry}
use semblance.Cache.Vector.{normalize}
use semblance.Double.{Double, Single}
use semblance.Policy.Logistic.{Observation}
use semblance.Prelude.{
  ℕ, zero, suc, ◌<◌, ◌≤◌, ◌≡◌, refl, ◌⊎◌, inl, inr, List, [], ◌∷◌, ◌++◌, some, arith, ◌==◌, ltb,
  leb, ◌&&◌, length, get_elem?, set, Bool-cases, length-append, length-set, subst,
}

Arm-cases : (arm : Arm) → (arm ≡ static) ⊎ (arm ≡ verified)
Arm-cases static = inl refl
Arm-cases verified = inr refl

module _ {F : Type 0} where
  append_obs-window :
      (obs : List (Observation F)) (o : Observation F)
      → length obs ≤ obs_window
      → length (append_obs obs o) ≤ obs_window
  unfolding append_obs
  append_obs-window [] o h = ground arith
  append_obs-window (x ∷ obs) o h =
      ground (arith, length-append obs (o ∷ []), length-append (x ∷ obs) (o ∷ []))

module _ {F S : Type 0} where
  -- The window of observations of every entry is bounded.
  abbrev pub IsBounded : List (Entry F S) → Type 0
  IsBounded [] = Unit
  IsBounded (e ∷ es) = (length e.obs ≤ obs_window) × IsBounded es

  get_elem?-IsBounded :
      (es : List (Entry F S)) (i : ℕ) (e : Entry F S)
      → IsBounded es
      → get_elem? es i ≡ some e
      → length e.obs ≤ obs_window
  get_elem?-IsBounded [] i e h at_i = absurd (cc)
  get_elem?-IsBounded (x ∷ es) zero e (h, hs) at_i =
      let same : x ≡ e = cc in subst (λ (v : Entry F S). length v.obs ≤ obs_window) same h
  get_elem?-IsBounded (x ∷ es) (suc i) e (h, hs) at_i = get_elem?-IsBounded es i e hs at_i

  set-IsBounded :
      (es : List (Entry F S)) (i : ℕ) (e : Entry F S)
      → IsBounded es
      → length e.obs ≤ obs_window
      → IsBounded (set es i e)
  set-IsBounded [] i e h h' = h
  set-IsBounded (x ∷ es) zero e (h, hs) h' = (h', hs)
  set-IsBounded (x ∷ es) (suc i) e (h, hs) h' = (h, set-IsBounded es i e hs h')

  append-IsBounded :
      (es : List (Entry F S)) (q : List S) (qid : ℕ)
      → IsBounded es
      → IsBounded (es ++ (record { vec = q; id_set = qid; obs = [] } ∷ []))
  append-IsBounded [] q qid h = (omega arith, tt)
  append-IsBounded (x ∷ es) q qid (h, hs) = (h, append-IsBounded es q qid hs)

  insert_entry-length :
      (es : List (Entry F S)) (q : List S) (qid capacity : ℕ)
      → (0 < capacity → length es ≤ capacity)
      → 0 < capacity
      → length (insert_entry es q qid capacity) ≤ capacity
  unfolding insert_entry
  insert_entry-length [] q qid capacity h pos = ground arith
  insert_entry-length (x ∷ es) q qid capacity h pos =
      let e : Entry F S = record { vec = q; id_set = qid; obs = [] } in
      ground (arith, length-append es (e ∷ []))

  insert_entry-IsBounded :
      (es : List (Entry F S)) (q : List S) (qid capacity : ℕ)
      → IsBounded es
      → IsBounded (insert_entry es q qid capacity)
  unfolding insert_entry
  insert_entry-IsBounded [] q qid capacity h = ground arith
  insert_entry-IsBounded (x ∷ es) q qid capacity (h, hs) =
      elim (Bool-cases (ltb 0 capacity && leb capacity (suc (length es)))) [
        | inl full ↦ rw full (append-IsBounded es q qid hs)
        | inr room ↦ rw room (append-IsBounded (x ∷ es) q qid (h, hs))
      ]

module _ {F S : Type 0} where
  -- The entries stay within the capacity, where there is one, and their observations in the window.
  record Fits (capacity : ℕ) (es : List (Entry F S)) : Type 0 where
    pub room : 0 < capacity → length es ≤ capacity
    pub bounded : IsBounded es

  insert_entry-Fits :
      (capacity : ℕ) (es : List (Entry F S)) (q : List S) (qid : ℕ)
      → Fits capacity es
      → Fits capacity (insert_entry es q qid capacity)
  insert_entry-Fits capacity es q qid h = record {
    room = insert_entry-length es q qid capacity h.room;
    bounded = insert_entry-IsBounded es q qid capacity h.bounded;
  }

  observed-Fits :
      (capacity : ℕ) (es : List (Entry F S)) (i : ℕ) (e : Entry F S) (o : Observation F)
      → get_elem? es i ≡ some e
      → Fits capacity es
      → Fits capacity (set es i (record e { obs = append_obs e.obs o }))
  observed-Fits capacity es i e o there h = record {
    room =
        λ pos. ground (arith, h.room pos, length-set es i (record e { obs = append_obs e.obs o }));
    bounded =
        set-IsBounded es i (record e { obs = append_obs e.obs o }) h.bounded
          (append_obs-window e.obs o (get_elem?-IsBounded es i e h.bounded there));
  }

module _ {F S R : Type 0} ⦃d : Double F⦄ where
  exploit-Fits :
      (capacity : ℕ) (st : State F S R) (e : Entry F S) (qid : ℕ)
      → Fits capacity st.entries
      → Fits capacity (exploit st e qid).entries
  unfolding exploit
  exploit-Fits capacity st e qid h = elim (Bool-cases (e.id_set == qid)) [
    | inl right ↦ rw right h
    | inr wrong ↦ rw wrong h
  ]

  learn-Fits :
      (c : Settings F) (st : State F S R) (i : ℕ) (e : Entry F S) (sim : F) (q : List S) (qid : ℕ)
      → get_elem? st.entries i ≡ some e
      → Fits c.capacity st.entries
      → Fits c.capacity (learn c st i e sim q qid).entries
  unfolding learn
  learn-Fits c st i e sim q qid there h =
      let seen =
        observed-Fits c.capacity st.entries i e (record { s = sim; c = e.id_set == qid }) there h in
      elim (Arm-cases c.arm) [
        | inl s ↦ simp s (insert_entry-Fits c.capacity st.entries q qid h)
        | inr v ↦ (elim (Bool-cases (e.id_set == qid)) [
          | inl right ↦ simp (v, right) (rw right at seen)
          | inr wrong ↦ simp (v, wrong) (insert_entry-Fits c.capacity _ q qid (rw wrong at seen))
        ])
      ]

module _ {F S R : Type 0} ⦃d : Double F⦄ ⦃f : Single F S⦄ (float64 : R → F × R)
    (c : Settings F) where
  replay-Fits :
      (st : State F S R) (r : Record S)
      → Fits c.capacity st.entries
      → Fits c.capacity (replay float64 c st r).entries
  unfolding cold_miss
  replay-Fits st r h =
      let q = normalize F r.embedding in
      replay_induction float64 c (λ st'. Fits c.capacity st'.entries) st r
        (insert_entry-Fits c.capacity st.entries q r.id_set h)
        (λ i e pol there. exploit-Fits c.capacity (record st { pol = pol }) e r.id_set h)
        (λ i e pol sim there. learn-Fits c (record st { pol = pol }) i e sim q r.id_set there h)

  replay_all-Fits :
      (st : State F S R) (rs : List (Record S))
      → Fits c.capacity st.entries
      → Fits c.capacity (replay_all float64 c st rs).entries
  unfolding replay_all
  replay_all-Fits st [] h = h
  replay_all-Fits st (r ∷ rs) h = replay_all-Fits (replay float64 c st r) rs (replay-Fits st r h)

  start-Fits : (rand : R) → Fits c.capacity (start {S = S} float64 c rand).entries
  unfolding start
  start-Fits rand = record { room = λ pos. omega arith; bounded = tt }

  -- With a positive capacity a run holds no more entries than that at its end, however many records
  -- it replays.
  pub run_arm-entries_final :
      (rand : R) (records : List (Record S))
      → 0 < c.capacity
      → (run_arm float64 c rand records).entries_final ≤ c.capacity
  unfolding run_arm score
  run_arm-entries_final rand records pos =
      (replay_all-Fits (start float64 c rand) records (start-Fits rand)).room pos

  -- After any number of records each entry of a run keeps at most 1024 observations.
  pub replay_all-IsBounded :
      (rand : R) (records : List (Record S))
      → IsBounded (replay_all float64 c (start float64 c rand) records).entries
  replay_all-IsBounded rand records =
      (replay_all-Fits (start float64 c rand) records (start-Fits rand)).bounded

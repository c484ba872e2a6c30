-- ===== src/Bench/Scan.antt =====
-- bench/replay.go: the cached entries and the scan for the nearest one. An index is `none` where the
-- code has -1. `dot` and `normalize` are the functions of internal/cache/memory.go, copied there.
use semblance.Cache.Vector.{dot}
use semblance.Double.{Double, Single}
use semblance.Policy.Logistic.{Observation, nought}
use semblance.Prelude.{
  ℕ, zero, suc, ◌+◌, ◌-◌, ◌*◌, ◌/◌, ◌&&◌, ◌||◌, List, [], ◌∷◌, ◌++◌, Option, none, some,
  if◌then◌else◌, ltb, leb, ◌==◌, length, get_elem?, drop,
}

-- `id_set` is only compared for equality.
pub record Record (S : Type 0) : Type 0 where
  pub id_set : ℕ
  pub embedding : List S

pub record Entry (F S : Type 0) : Type 0 where
  pub vec : List S
  pub id_set : ℕ
  pub obs : List (Observation F)

abbrev pub obs_window : ℕ
obs_window = 1024

abbrev pub par_threshold : ℕ
par_threshold = 4096

module _ {F : Type 0} where
  unfoldable pub append_obs : List (Observation F) → Observation F → List (Observation F)
  append_obs obs o = if leb obs_window (length obs) then drop 1 obs ++ (o ∷ []) else obs ++ (o ∷ [])

module _ {F S : Type 0} where
  -- A capacity of 0 stands for every capacity that is not positive.
  unfoldable pub insert_entry : List (Entry F S) → List S → ℕ → ℕ → List (Entry F S)
  insert_entry entries vec id_set capacity =
      let e : Entry F S = record { vec = vec; id_set = id_set; obs = [] } in
      if ltb 0 capacity && leb capacity (length entries)
      then drop 1 entries ++ (e ∷ [])
      else entries ++ (e ∷ [])

-- The best index so far and its similarity.
abbrev pub Best : Type 0 → Type 0
Best F = Option ℕ × F

module _ {F : Type 0} ⦃d : Double F⦄ where
  open d use {lt, neg_inf}

  abbrev pub no_best : Best F
  no_best = (none, neg_inf)

  -- `left` rounds of the loop of `nearestRange`, from the index `k`, over the similarities.
  unfoldable pub range_loop : (ℕ → F) → ℕ → ℕ → Best F → Best F
  range_loop sim_at zero k best = best
  range_loop sim_at (suc left) k best =
      let s = sim_at k in range_loop sim_at left (k + 1) (if lt best.1 s then (some k, s) else best)

  unfoldable pub nearest_range : (ℕ → F) → ℕ → ℕ → Best F
  nearest_range sim_at lo hi = range_loop sim_at (hi - lo) lo no_best

  -- What worker `w` leaves in `results`.
  unfoldable pub worker_result : (ℕ → F) → ℕ → ℕ → ℕ → Best F
  worker_result sim_at n chunk w =
      let lo = w * chunk in
      let hi = lo + chunk in
      if leb n lo then no_best else nearest_range sim_at lo (if ltb n hi then n else hi)

  -- The last loop of `nearest`, over the results of `left` workers from `w` on.
  unfoldable pub combine : (ℕ → Best F) → ℕ → ℕ → Best F → Best F
  combine result zero w best = best
  combine result (suc left) w best =
      let r = result w in
      combine result left (w + 1)
        (elim r.0 [ none ↦ best | some i ↦ if lt best.1 r.1 then r else best ])

  -- `nearest` over the similarities of `n` entries.
  unfoldable pub nearest_of : (ℕ → F) → ℕ → ℕ → Best F
  nearest_of sim_at n workers =
      let chunk = (n + workers - 1) / workers in
      if n == 0
      then (none, nought)
      else if ltb n par_threshold || leb workers 1
      then nearest_range sim_at 0 n
      else combine (worker_result sim_at n chunk) workers 0 no_best

module _ {F S : Type 0} ⦃d : Double F⦄ ⦃f : Single F S⦄ where
  -- The similarity of the query to the entry at an index; the loops stay within the entries. The code
  -- panics when an entry's vector is shorter than the query's, where `dot` stops: this is the code for
  -- vectors that are at least as long.
  unfoldable pub similarity : List S → List (Entry F S) → ℕ → F
  similarity q entries k = elim (get_elem? entries k) [ none ↦ d.neg_inf | some e ↦ dot q e.vec ]

  unfoldable pub nearest : List S → List (Entry F S) → ℕ → Best F
  unfolding similarity nearest_of
  nearest q entries workers = nearest_of (similarity q entries) (length entries) workers

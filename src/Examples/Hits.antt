-- ===== src/Examples/Hits.antt =====
-- A request that internal/gateway/chat.go answers from the cache.
use semblance.Cache.Insert.{insert-IsValid}
use semblance.Cache.Observe.{observe-IsValid}
use semblance.Cache.Shard
use semblance.Cache.Shard.{
  Entry, Match, Shard, StoredResponse, insert_entry, add, evict_loop, evict_lru, add_entry,
  bucket_entries, better, closer, scan, entry_id, reservoir,
}
use semblance.Cache.Store
use semblance.Cache.Store.{MemoryStore, new_shard, shard_for, fnv32a}
use semblance.Cache.Valid.{All, IsValid, entries, view, new_shard-IsValid}
use semblance.Cache.Vector.{normalize, dot}
use semblance.Examples.Chats.{env, to_world, request}
use semblance.Examples.Decisions.{half, policy, observations}
use semblance.Examples.Fixed.{Fixed, num, fixed, single_fixed, fixed-IsOrdered}
use semblance.Examples.Shards.{in_order-Visits, zero_one, response, slot, key}
use semblance.Gateway.Request.{bypass_reason, final_user_text, message_text, bucket_key_for_request}
use semblance.Cache.Key.{bucket_key}
use semblance.Gateway.Chat
use semblance.Gateway.Accounting.{bill, update_budget_gauge, record_embed_usage, record_saved_cost}
use semblance.Double.{Double, Single}
use semblance.OpenAi.{ChatCompletionRequest}
use semblance.Policy.Decide.{decide, tau_hat, clamp, grid_min, grid_tau}
use semblance.Gateway.Chat.{
  handle_chat_completions, with_request, with_embedding, with_neighbor, with_decision, serve_hit,
}
use semblance.Gateway.Hit.{IsFresh}
use semblance.Gateway.Marked.{handle-hit}
use semblance.Gateway.Reuse.{IsReuse}
use semblance.Gateway.Unhit.{IsMarkedHit}
use semblance.Gateway.World.{Env, World, pure, ◌>>=◌, count, shared, respond_by, embed_tokens}
use semblance.Gateway.Writer.{write, new_writer, write_header}
use semblance.Judge.Labeler.{new_labeler}
use semblance.Budget.{new, enabled}
use semblance.Pricing.{embed_cost, chat_cost}
use semblance.Policy.Logistic.{
  Observation, fit, finish, fit_loop, gradient, add_observation, sigmoid, is_finite,
}
use semblance.Prelude.{
  ℤ, ap, pos, ℕ, ◌+◌, ◌^◌, ◌<◌, ◌≡◌, refl, true, false, List, [], ◌∷◌, Option, none, some, arith,
}
use semblance.Text.{Text, format_uint}

abbrev learned : Shard Fixed Fixed → Observation Fixed → Shard Fixed Fixed
learned sh o = elim (Shard.observe slot sh key (entry_id 7 1) o.s o.c) [
  | none ↦ sh
  | some (sh', done) ↦ sh'
]

-- Observations keep a shard valid.
learned-IsValid :
    (sh : Shard Fixed Fixed) (o : Observation Fixed)
    → IsValid sh
    → All (λ (e : Entry Fixed Fixed). e.seen + 1 < 2 ^ 63) (entries sh)
    → IsValid (learned sh o)
learned-IsValid sh o v small =
    let (sh', done, eq, valid) = observe-IsValid slot sh (key, entry_id 7 1) o.s o.c v small in
    rw (learned, eq) valid

abbrev first : Shard Fixed Fixed
first = (insert_entry (new_shard 2 5 7) key zero_one response).0

abbrev second : Shard Fixed Fixed
second = learned first (record { s = num 1000000900; c = true })

abbrev third : Shard Fixed Fixed
third = learned second (record { s = num 1000000950; c = true })

abbrev shard : Shard Fixed Fixed
shard = learned third (record { s = num 1000000300; c = false })

first-small : All (λ (e : Entry Fixed Fixed). e.seen + 1 < 2 ^ 63) (entries first)
unfolding insert_entry add evict_loop view
first-small = (omega arith, tt)

second-small : All (λ (e : Entry Fixed Fixed). e.seen + 1 < 2 ^ 63) (entries second)
unfolding insert_entry add evict_loop view Shard.observe reservoir entry_id format_uint
    bucket_entries add_entry Shard.remove
second-small = (omega arith, tt)

third-small : All (λ (e : Entry Fixed Fixed). e.seen + 1 < 2 ^ 63) (entries third)
unfolding insert_entry add evict_loop view Shard.observe reservoir entry_id format_uint
    bucket_entries add_entry Shard.remove
third-small = (omega arith, tt)

shard-IsValid : IsValid shard
shard-IsValid =
    learned-IsValid third _
      (learned-IsValid second _
        (learned-IsValid first _
          (insert-IsValid (new_shard 2 5 7) key zero_one response
            (new_shard-IsValid 2 5 7 (omega arith)) (omega arith))
          first-small)
        second-small)
      third-small

-- A bound so generous that nothing is explored.
abbrev world : World Fixed Fixed ℕ
world = to_world (record {
  store = shard ∷ [];
  policy = record policy { delta = num 1000001000 };
  labeler = new_labeler 4 1;
  budget = new (num 1000000000);
  bypass_total = 0;
})

world-IsFresh : IsFresh world
world-IsFresh = record { unwritten = refl; unmarked = λ h. absurd (cc h) }

-- The policy exploits the entry's three observations.
world-exploits : (decide half world.server.policy observations (num 1000001000)).0.explore ≡ false
unfolding decide fit finish fit_loop gradient add_observation sigmoid is_finite tau_hat clamp
    grid_min grid_tau
world-exploits = refl

-- The neighbour that is found.
abbrev neighbor : Match Fixed
neighbor = record {
  entry_id = entry_id 7 1;
  similarity = num 1000001000;
  observations = observations;
  response = response;
}

-- The world after the embedding is paid for, and after the lookup.
abbrev paid : World Fixed Fixed ℕ
paid = record world { calls = embed_tokens (pos 1) ∷ []; clock = 1 }

abbrev looked : Option (Option (Match Fixed)) × World Fixed Fixed ℕ
looked = Chat.nearest env key zero_one paid

world-paid : record_embed_usage env request.model [] (pos 1) world ≡ (some tt, paid)
unfolding record_embed_usage bill update_budget_gauge enabled pure ◌>>=◌ count shared embed_cost
world-paid = refl

paid-looked : looked.0 ≡ some (some neighbor)
unfolding shared Chat.nearest Store.nearest shard_for fnv32a Shard.nearest better closer normalize
    dot insert_entry add evict_loop Shard.observe reservoir entry_id format_uint bucket_entries
    add_entry Shard.remove
paid-looked = refl

looked-policy : looked.1.server.policy ≡ world.server.policy
unfolding shared Chat.nearest Store.nearest shard_for fnv32a
looked-policy = refl

looked-writer : looked.1.writer ≡ world.writer
unfolding shared Chat.nearest Store.nearest shard_for fnv32a
looked-writer = refl

neighbor-marked :
    (w : World Fixed Fixed ℕ)
    → w.writer ≡ new_writer
    → w.server.policy ≡ world.server.policy
    → IsMarkedHit (with_neighbor env [] key zero_one neighbor request.model [] w).1.writer
unfolding with_neighbor with_decision serve_hit record_saved_cost pure ◌>>=◌ count shared respond_by
    write write_header chat_cost
neighbor-marked w fresh same =
    let exploits : (decide half w.server.policy observations (num 1000001000)).0.explore ≡ false =
      rw same world-exploits in
    rw (exploits, fresh) refl

-- The steps after the embedding, up to the neighbour.
with_embedding_steps :
    {F S R : Type 0} ⦃d : Double F⦄ ⦃f : Single F S⦄ (env : Env F S R) (body key bucket : Text)
    (req : ChatCompletionRequest F) (qvec : List S) (tokens : ℤ) (w w1 w2 : World F S R)
    (found : Match F)
    → bucket_key_for_request env.digest env.decode_string env.format_float req ≡ bucket
    → record_embed_usage env req.model key tokens w ≡ (some tt, w1)
    → Chat.nearest env bucket qvec w1 ≡ (some (some found), w2)
    → with_embedding env body req key qvec tokens w
      ≡ with_neighbor env body bucket qvec found req.model key w2
unfolding with_embedding ◌>>=◌
with_embedding_steps g body k bucket req qvec tokens w w1 w2 found b e1 e2 =
    rw (with_embedding, b, e1, e2)
      (ap (λ (x : Text). with_neighbor g body x qvec found req.model k w2) b)

request-bucket : bucket_key_for_request env.digest env.decode_string env.format_float request ≡ key
unfolding bucket_key_for_request bucket_key
request-bucket = refl

world-embedded : IsMarkedHit (with_embedding env [] request [] zero_one (pos 1) world).1.writer
world-embedded =
    rw
      (with_embedding_steps env [] [] key request zero_one (pos 1) world paid looked.1 neighbor
        request-bucket world-paid
        (ap (λ (x : Option (Option (Match Fixed))). (x, looked.1)) paid-looked))
      (neighbor-marked looked.1 looked-writer looked-policy)

world-handled :
    handle_chat_completions env true [] [] world
    ≡ with_embedding env [] request [] zero_one (pos 1) world
unfolding handle_chat_completions with_request bypass_reason final_user_text message_text
world-handled = refl

world-marked : IsMarkedHit (handle_chat_completions env true [] [] world).1.writer
world-marked = rw world-handled world-embedded

handle-hit_example :
    (bypass_reason env.decode_string env.cfg.temperature_ceiling request ≡ none)
    × IsReuse fixed-IsOrdered env request [] world (handle_chat_completions env true [] [] world).1
handle-hit_example =
    handle-hit fixed-IsOrdered env true [] [] world (λ n. in_order-Visits) (λ n s v. v)
      (shard-IsValid, tt) world-IsFresh world-marked

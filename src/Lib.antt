-- ===== src/Lib.antt =====
-- Semblance: a gateway in front of a chat-completions API that answers from a cache where it may.
--
-- A request's text is embedded; the store finds the nearest cached entry of the request's bucket; the
-- policy decides, from the observations of that entry, whether to serve it (exploit) or to ask the
-- backend (explore). After an explore a worker of the judge compares the two answers, adds the verdict
-- to the entry's observations, and inserts a new entry only if the cached one was wrong. Budgets and
-- prices account for what this costs, and the bench replays recorded queries through the same rule.
--
-- The parts:
-- * Policy (internal/policy): Logistic is `Fit` of logistic.go; Band is `seT` and `normalQuantile` of
--   band.go; Decide is `Decide` and `tauHat` of decide.go. Tau and Rule are about what they decide,
--   Newton about the end of the fit's loop.
-- * Cache (internal/cache): Key is `BucketKey` of cache.go; Vector is `normalize` and `dot`, Shard one
--   shard and Store the store of memory.go, with `GuardedInsert` of guarded.go. Entries live in a heap
--   of which the LRU list and the bucket maps hold addresses, so that an observation is seen through
--   both. Recency, Index and Valid state when they agree; Evict, Insert, Touch, Observe and Nearest
--   are about the operations on the list of entries, most recently used first; Steps is the store
--   under a sequence of calls while its counters have room, Guarded its guarded insert. Abstract is the store as lists of entries,
--   Refined relates the two call by call, Counted is about the counters, RoundTrip about an entry
--   after its insertion.
-- * Judge (internal/judge): Verdict is judge.go and the worker's label; Labeler is labeler.go, one
--   function for what a goroutine does at once; History is their interleavings, Drain the way to an
--   empty queue.
-- * Budget, Pricing (internal/budget, internal/pricing): `Tracker` and its methods, `Table` and its
--   costs.
-- * Config (internal/config/config.go): Parse is the helpers, Load is `Load` in its order.
-- * OpenAi (internal/openai/types.go): the JSON types. Embed (internal/embed): Fake is fake.go, OpenAi
--   openai.go; Reordered is about the fake on the same words in another order.
-- * Gateway (internal/gateway): World is what all requests share and the run of one handler among
--   others; Request is what chat.go reads of a request and of a response, Upstream its calls of the
--   backend, Accounting accounting.go, Chat its handler, branch by branch, and the callback of a
--   labeling job; Writer is errors.go and the response recorder of middleware.go, Access its
--   authentication and budget check, Handler the chain of handlers with the muxes of gateway.go, Server
--   `New` and `Close`. Run states what a run does and how effects add up; Effects, Branches and Answers
--   are the effects of every step, Ready those of a handler on a server that can serve, Recovered the
--   chain. Silent and Unhit are the steps that never say "hit", Hit, Reuse and Marked what must have
--   happened when the response does. Buckets is about the key, Learn about the callback, Written about what
--   reaches the client, Admitted about who is let in. Moves is what any goroutine may do to the shared
--   components, access by access; Served and Callback are requests and callbacks among such goroutines,
--   Live and Spent what holds of a server whatever they interleave.
-- * Metrics (internal/metrics): the collectors and their registration; Startup is about the start.
-- * Command (cmd/semblance/main.go): the life of the process as a step relation; Lifecycle is its
--   invariant, Exits a way to a clean end.
-- * Bench (bench): Scan is the entries and the scan for the nearest, Replay `runArm` with its score, of
--   replay.go; Main is main.go. Serial, Parallel, Counts, Bounds, Loaded and Verdict are about
--   them.
-- * Prelude, Assoc, Text and Double hold what these share: lists over native numbers, association
--   lists for maps, Go strings as lists of bytes, float64 and float32. Examples has an arithmetic in
--   which the definitions run, tests, and each theorem at a concrete input.
--
-- Bounds and fuel: counters wrap at 2 ^ 64, and a draw from a range that is no positive int64 is a
-- panic, `none`. The loop that evicts has fuel for each entry of the list, and each round removes one.
-- A decimal number has at most twenty digits, enough for a uint64. The fit makes at most 50 rounds, as
-- the code does. Lengths, counts and capacities are naturals: where the code raises a negative
-- argument to 1, or takes one that is not positive for no bound, 0 stands for it.
--
-- float64 is a type with its operations; only the laws of IEEE 754 comparison are assumed of them, and
-- for budgets two of addition and subtraction and one of the product by 100. Rounding and fused
-- multiply-add are not modelled.
-- Arguments of the definitions: SHA-256 with its hexadecimal form, the order in which Go ranges over a
-- map, random draws, trimming, the parsers of the standard library, and file reading with JSON. A call
-- that holds a lock is one step.
--
-- In the gateway: before each access of a handler to the store, the policy, the labeler, the budget or
-- the counter of bypasses, the other goroutines may do anything to all of them (`others`). The theorems
-- assume of them only what they name: an invariant, or in Served, Callback and Spent that they make
-- accesses of the kinds that the handlers, callbacks and workers make. A panic keeps what was done
-- before. What the backend, the embedder, the client and the HTTP library do, JSON, and the format of a
-- float are fields of `Env`, and the calls on the metrics are recorded. The Prometheus registry is an
-- argument of Metrics, which refuses a name that is registered, and one that ever was with another help
-- or other labels; in Command it is `http.Server` and the operating system that choose the steps.
--
-- In three places the code can do what the definitions leave out. `WriteHeader` of the HTTP library
-- panics on a code below 100 or above 999; here a backend's status is none of these. A refused `Write` may
-- have sent a part of its bytes. And the bench's `dot` panics when an entry's vector is shorter than
-- the query's, where the model's stops: the bench takes the vectors of one file for equally long.
--
-- Not modelled: the time of the refit, the text format of a scrape, log texts, contexts and deadlines
-- beyond their effect that a call fails, flushing, and the lines and files that the bench writes: input
-- and output, or calls of a library.
pub mod Prelude
pub mod Assoc
pub mod Text
pub mod Double
pub mod Policy
pub mod Cache
pub mod Budget
pub mod Pricing
pub mod Judge
pub mod Config
pub mod OpenAi
pub mod Embed
pub mod Gateway
pub mod Metrics
pub mod Command
pub mod Bench
pub mod Examples

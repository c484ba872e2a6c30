-- ===== src/Gateway.antt =====
-- internal/gateway: the HTTP gateway. `Access` and `Request` decide on a request, `Writer` is the
-- response, `World` the state that handlers share, and `Chat` the handler.
pub mod Access
pub mod Admitted
pub mod Request
pub mod Writer
pub mod World
pub mod Accounting
pub mod Upstream
pub mod Chat
pub mod Handler
pub mod Written
pub mod Run
pub mod Effects
pub mod Branches
pub mod Answers
pub mod Silent
pub mod Unhit
pub mod Hit
pub mod Marked
pub mod Reuse
pub mod Buckets
pub mod Learn
pub mod Ready
pub mod Moves
pub mod Server
pub mod Recovered
pub mod Served
pub mod Callback
pub mod Live
pub mod Spent

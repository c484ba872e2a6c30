-- ===== src/Bench.antt =====
-- bench/replay.go: the offline replay of recorded queries through the static and the verified cache.
pub mod Scan
pub mod Replay
pub mod Serial
pub mod Parallel
pub mod Counts
pub mod Bounds
pub mod Main
pub mod Loaded
pub mod Verdict

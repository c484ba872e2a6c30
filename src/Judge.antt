-- ===== src/Judge.antt =====
-- internal/judge: the verdict that a cached answer would have been right (judge.go), and the queue and
-- workers that reach it off the request's path (labeler.go).
pub mod Verdict
pub mod Labeler
pub mod History
pub mod Drain

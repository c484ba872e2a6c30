-- ===== src/Policy.antt =====
-- internal/policy: the observations, the fitted model and the decision rule's data (logistic.go,
-- decide.go). The children compute with them.
pub mod Logistic
pub mod Band
pub mod Decide
pub mod Tau
pub mod Rule
pub mod Newton

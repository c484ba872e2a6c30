-- ===== src/Embed.antt =====
-- internal/embed: the two embedders. A vector's components are float32s: adding and subtracting one
-- are arguments, and so is what the standard library does for the HTTP call.
pub mod Fake
pub mod Reordered
pub mod OpenAi

-- ===== src/Tests.antt =====
-- Each theorem that has a hypothesis, at an input where the hypotheses hold.
mod Wire
mod Store
mod Log
mod Rewrite
mod Programs
mod Sessions
mod Info
mod Running

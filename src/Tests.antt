-- ===== src/Tests.antt =====
-- Runs of the models on concrete inputs, and the theorems at inputs that meet their hypotheses.
mod Patterns
mod Numbers
mod Edits
mod Sources
mod Terminal
mod Completions
mod Sums
mod Keys

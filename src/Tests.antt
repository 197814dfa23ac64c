-- ===== src/Tests.antt =====
-- The theorems at concrete inputs, and runs of the definitions that can be followed in the source.
mod Machine
mod Texts
mod Calls
mod Csv
mod Runs
mod Events
mod Learners
mod Programs
mod Whole
mod Detector
mod Race
mod Relay
mod Learning
mod Tasks

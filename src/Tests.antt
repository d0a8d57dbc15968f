-- ===== src/Tests.antt =====
-- Runs of the model on concrete inputs, and each theorem at an input that meets its conditions.
mod Wire
mod Paxos
mod Engineer
mod Files
mod Chosen
mod Agreement
mod Cluster
mod Slots
mod Converge
mod Customer
mod Programs
mod Timer

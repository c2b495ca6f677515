-- ===== src/Tests.antt =====
-- Runs of the model at concrete inputs, and the theorems at states that meet their hypotheses.
mod Sample
mod Server
mod Client
mod Loop
mod Register
mod Kheap
mod Receiver
mod Start
mod Ready

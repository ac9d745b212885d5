-- ===== src/Tests.antt =====
-- Runs of the model at small states, and the theorems at them.
mod Scene
mod Rooms
mod Nodes
mod Requests
mod Environment
mod Admission
mod Events
mod Start
mod Scene3
mod Framing
mod ClientList
mod Loop
mod ThreadPool
mod CrossDomain
mod Turns
mod Silence
mod Heartbeat
mod Moves
mod Database

-- ===== src/Server3.antt =====
-- The newer server of 3.0/server, in C++.
pub mod Client
pub mod Dict
pub mod FifoList
pub mod Groups
pub mod Process
pub mod ClientList
pub mod Socket
pub mod Log
pub mod System
pub mod Jobs
pub mod Loop
pub mod ThreadPool
pub mod CrossDomain

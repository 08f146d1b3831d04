-- ===== src/Examples.antt =====
-- The theorems at concrete inputs, and runs.
mod Data
mod Vectors
mod Peers
mod Tracker
mod Mutex
mod Scan
mod Replies
mod Networks
mod Rounds
mod Http
mod Udp
mod Network
mod Iovec
mod Server
mod Fullscrape
mod SavedState
mod Header

-- ===== src/Tests.antt =====
-- The theorems at concrete inputs.
mod Data
mod FriendRequests
mod FriendAnswers
mod FriendRemoval
mod GroupRequests
mod GroupMembership
mod GroupLeaving
mod Runs
mod RoomCalls
mod Posting
mod Relocking
mod PrivatePosting
mod History
mod Permissions
mod Levels
mod Framing
mod Packages
mod Stream
mod Login
mod JsonData
mod Messages
mod ClientCalls
mod Consoles

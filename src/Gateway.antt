-- ===== src/Gateway.antt =====
-- server/internal/gateway: the requests that clients send, and what they do to the store.
--
-- A handler makes several calls of the store. It is modelled as one function, from the store to the new
-- store and what is sent: no other request runs between its calls. The store is the one in memory,
-- whose methods fail only as Store says. A group's list of members, which sort.SliceStable orders, is a
-- copy of the store's.
pub mod Requests
pub mod Roles
pub mod Membership
pub mod Management
pub mod Ownership
pub mod Owners
pub mod Safety
pub mod Dispatch
pub mod Access
pub mod Tests
pub mod FriendTests
pub mod Permissions
pub mod Friendship
pub mod Announcements

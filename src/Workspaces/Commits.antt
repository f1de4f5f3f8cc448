-- ===== src/Workspaces/Commits.antt =====
-- Every transaction of workspaces.rs that can commit, as one step relation.
--
-- A request checks the committed state and then runs one transaction, and other requests may
-- commit in between. `Committed` therefore has the transaction bodies alone, at any arguments and
-- on any state, so a path of `Reach` is an interleaving of requests whose transactions commit one
-- after the other. `Step` adds the repair of a roster, which is a statement of its own: its callers
-- have read the seat before. Two transactions that run at the same time are outside the model: the skew
-- between a new channel and a join that the comments of `create_channel` speak of stays there.
pub mod Core
pub mod Refines
pub mod Preserves
pub mod Roles
pub mod Interleavings
pub mod Cap

-- ===== src/ResourceManager.antt =====
-- src/resource-manager.c and src/resource-manager-session.c: the thread that takes commands off its
-- queue, virtualizes the handles in them, sends them to the TPM and passes the responses on. Its
-- functions stand in the children, which use one another in the order of the lines below.
pub mod State
pub mod Triple
pub mod Frame
pub mod Frames
pub mod Session
pub mod Load
pub mod Save
pub mod Special
pub mod Capability
pub mod Mapping
pub mod Process
pub mod Faults
pub mod Refusals
pub mod Listing
pub mod Answers
pub mod Virtualized
pub mod Delivery
pub mod Isolation
pub mod Limits

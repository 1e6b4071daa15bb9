-- ===== src/Auth.antt =====
-- Interactive authentication (sdk_client_25/*.py): login attempts, sign-out, choice of the flow,
-- the device authorization flow, and comparison of identities.
pub mod Refresh
pub mod Attempts
pub mod SignOut
pub mod FlowSelection
pub mod Identity
pub mod Device
mod Tests
mod RefreshTests

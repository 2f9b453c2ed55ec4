-- ===== src/UserHooks.antt =====
-- src/services/user/hooks/userService.js: the hooks of the users service. The children follow the
-- groups of hooks in that file.
pub mod Hierarchy
pub mod Update
pub mod Unique
pub mod Registration
pub mod Display
mod Tests

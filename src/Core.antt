-- ===== src/Core.antt =====
-- include/laso/core/types.hpp and src/core/types.cpp.
pub mod Data
pub mod Errors
pub mod NodeWork
pub mod RunStates

-- ===== src/Policy.antt =====
-- pherix/core/policy.py and the caps of pherix/core/envelope.py.
pub mod Context
pub mod Caps
pub mod Engine
pub mod Agreement
pub mod Budget
pub mod Readers
pub mod Tiers
pub mod Actors

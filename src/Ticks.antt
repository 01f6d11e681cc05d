-- ===== src/Ticks.antt =====
-- virtual_methods_vs_crtp: the same counter behind a virtual method (virtual_methods/virtual.cpp) and
-- behind the curiously recurring template pattern (crtp/crtp.cpp).
pub mod Virtual
pub mod Crtp
pub mod Agree
pub mod Bounds

-- ===== src/Jit.antt =====
-- The just-in-time compiler: libs/ubpf/vm/ubpf_jit_support.{h,c}, the x86-64 code generator of
-- ubpf_jit_x86_64.{h,c}, and the driver ubpf_jit.c.
pub mod State
pub mod Support
pub mod Emit
pub mod Translate
pub mod Resolve
pub mod Driver
mod Tests
mod DriverTests

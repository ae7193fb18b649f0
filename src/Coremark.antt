-- ===== src/Coremark.antt =====
-- lib/coremark: the benchmark kernels and their checksum.
pub mod Util
pub mod State
pub mod Matrix
pub mod Links
pub mod Calc

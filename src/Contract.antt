-- ===== src/Contract.antt =====
-- The part of driver.Driver (internal/driver/driver.go) that decides what becomes of a claimed job, as
-- operations on a store and the laws that its comments state. The client's modules take it as an
-- argument; memdriver fills it below.
mod Defs
mod Mem
pub use Defs.{Driver, Lands, Settles}
pub use Mem.{mem_driver}

-- ===== src/Libraries.antt =====
-- The libraries that the program calls, as interfaces: operations with the laws that their
-- documentation states. The program's definitions take them as parameters.
pub mod Meta
pub mod Failures
pub mod Marks
pub mod Client
pub mod Frame
pub mod Template
pub mod Wait
pub mod Text

-- ===== src/Python.antt =====
-- What the program uses of the Python runtime: exceptions, calls that may raise, and methods that
-- change an object and may raise.
pub mod Exc
pub mod Outcome
pub mod Answers
pub mod Action
pub mod Hoare
pub mod Json
pub mod Platform
pub mod Floats
pub mod Texts

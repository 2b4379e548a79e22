-- ===== src/Py.antt =====
-- The parts of Python that the sources use: exceptions and state (Action), dynamic values (Value),
-- texts (Text).
pub mod Result
pub mod Action
pub mod Value
pub mod Unicode
pub mod Equality
pub mod Text

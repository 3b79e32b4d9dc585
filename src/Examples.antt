-- ===== src/Examples.antt =====
-- Tests of the definitions and instances of the theorems, on inputs that the source's unit tests
-- or small programs give.
mod Forest
mod Printing
mod Parsing
mod Generation
mod Programs
mod Unification

-- ===== src/KeySpec.antt =====
-- `KeySpec` of coredis/commands/_key_spec.py: the keys among the arguments of a command. The lambdas
-- of its two tables are read as terms of `Spec`, and the tables are in KeySpec/Readonly and
-- KeySpec/All.
pub mod Slices
pub mod Spec
pub mod Readonly
pub mod All
pub mod Extract
pub mod Within
pub mod Agree
pub mod Counted
pub mod Tests

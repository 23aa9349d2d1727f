-- ===== src/Containers.antt =====
-- The standard containers that the sources keep their state in.
pub mod OrderedMap
pub mod HashMap

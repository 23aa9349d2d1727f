-- ===== src/Fix.antt =====
-- include/hft/fix/fix_parser.hpp and src/fix/fix_parser.cpp: FIX messages, their parser and builder.
pub mod Bytes
pub mod Tags
pub mod Message
pub mod Values
pub mod Parse
pub mod Builder
pub mod Feed
pub mod Workers
mod Examples

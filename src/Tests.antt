-- ===== src/Tests.antt =====
-- Tests and concrete instances of the laws, over small data.
mod Toys
mod Adding
mod Names
mod Ciphers
mod Stores
mod Walks
mod Returned

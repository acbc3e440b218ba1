-- ===== src/Compiler.antt =====
-- apps/api/internal/compiler/compiler.go: a fleet's proxy hosts and certificates are checked and
-- turned into the dynamic configuration of Traefik.
pub mod Names
pub mod Upstreams
pub mod Middlewares
pub mod Sections
pub mod Validation
pub mod Compile
pub mod Integrity
pub mod Order

-- ===== src/Provider.antt =====
-- providers/traefik-fleet: the provider plugin that runs inside Traefik, pulls the configuration
-- from the manager and keeps the last good one.
pub mod Config
pub mod Client
pub mod Loop
pub mod Cache
pub mod Vetting
pub mod LastGood
pub mod Restart

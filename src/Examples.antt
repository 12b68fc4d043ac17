-- ===== src/Examples.antt =====
-- Concrete inputs for the theorems: `Schedules` for the parser and its schedules, `Tables` for the
-- worker's jobs, `Proxy` for the configuration proxy, `Scans` for the scanners and the health checks,
-- `Etcd` for watches and registrations, `Http` for the interface, the kinds of checks and the
-- engine's clients, `Start` for the start of the agent, `Report` for reports, `Parts` for the rest.
mod Schedules
mod Tables
mod Proxy
mod Scans
mod Parts
mod Etcd
mod Http
mod Start
mod Report

-- ===== src/Controller/Samples.antt =====
-- The controller with its own methods, on an agent, a router and a cluster.
mod Lost
mod Watched
mod Printed

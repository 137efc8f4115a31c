-- ===== src/Scene.antt =====
-- services/scene-svc: applying a scene to the devices of the registry, all of it or none.
pub mod Client
pub mod Executor

-- ===== src/Projects.antt =====
-- apps/web/src/modules/projects/property-service.js: project access, units, task dependencies,
-- drawings and locations.
pub mod Access
pub mod UnitStatus
pub mod Dependencies
pub mod TaskDependencies
pub mod ProjectRoute
pub mod TowerRoute
pub mod SubRoutes
pub mod UnitRoute
pub mod Drawings
pub mod Locations
pub mod GenerateUnits

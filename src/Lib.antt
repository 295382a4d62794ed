-- ===== src/Lib.antt =====
-- Verification library of the construction ERP of this repository: a monorepo with a Next.js
-- application (apps/web), a BullMQ worker (apps/worker) and shared packages (packages). A tenant
-- is a company. The application registers tenants in the control plane (PostgreSQL), the worker
-- provisions each one a schema of its own, users log in to their tenant, and roles with
-- permissions and scopes decide what they may do with projects, units and tasks.
--
-- Prelude: names of the libraries that the modules share, Boolean tests, text and lists over
--   native numbers. Prelude.Effect: the state and exception monad of the services. A state that
--   was written stays written when a later call throws, unless `transaction` puts it back.
-- Shared: packages/shared/src/errors/index.js, the codes and constructors of AppError.
-- Rbac: packages/rbac/src. Permission and Matrix are permissions/index.js, Context and Guards are
--   guards/index.js (checkPermission is check_permission, and so on), Scope is scope-resolver.js.
-- Projects: apps/web/src/modules/projects/property-service.js. Access has filterProjectsByScope
--   and assertProjectAccess, GenerateUnits has generateUnits (floor numbers are the integers ℤ
--   over native naturals), UnitStatus has changeUnitStatus over the tables `units` and
--   `unit_status_history`, Drawings has createDrawingVersion, Locations has syncLocationForTower,
--   and Dependencies has assertNoDependencyCycle. The search of the latter runs on fuel,
--   `fuel_for`: the number of edges, the new one included, and one more. Each step takes one task
--   from the queue, a task adds its targets only at its first visit, and so an edge puts one task
--   in the queue at most.
--   TaskDependencies is apps/web/src/app/api/v1/tasks/[id]/dependencies/route.js, which calls
--   assertProjectAccess and assertNoDependencyCycle. ProjectRoute is projects/[id]/route.js and
--   TowerRoute the POST of projects/[id]/towers/route.js, which calls syncLocationForTower. SubRoutes
--   has the routes projects/[id]/blocks, categories, issues, rfis and drawings, and the list of boq.
--   UnitRoute is units/[id]/route.js, which calls changeUnitStatus.
-- Crm: apps/web/src/app/api/v1/crm. Leads is leads/route.js and leads/[id]/route.js, over a schema
--   that has the table of leads or lacks it.
-- Admin: apps/web/src/app/api/v1/admin. Users is users/[id]/route.js and Users.Create is
--   users/route.js, over the tables of Auth; Roles is roles/route.js and roles/[id]/route.js;
--   Channels is channel-config/route.js, with
--   modules/admin/channel-crypto.js as Channels.Crypto. There, JSON objects are lists of fields
--   looked up by name; AES-256-GCM, SHA-256, Base64 and the text of JSON are the fields
--   of the parameter Primitives, with their documented behaviour as the hypothesis IsSound.
-- Provisioning: apps/worker/src and apps/web/src/lib/queues.js. ControlPlane has the tables
--   `tenants`, with the status of the tenant's data location, and `provisioning_jobs`; Attempt is
--   provisioning-attempt.js, Worker is the handler of `tenant.provision` of main.js with
--   provisioning-progress.js, Migrations is `runTenantMigrations` and `runTenantMigrationFleet`
--   (packages/db/src/migrations/index.js), Schema is `provisionTenantSchema` of the same file,
--   which Worker and Queue call, and Queue is queues.js. What the four stages before the
--   activation do is a parameter, and so are `job.updateProgress` and the outcome of `queue.add`;
--   a statement of the database that may fail takes its outcome from the list `faults` in the
--   state.
-- Tenants: apps/web/src/app/api/v1/platform/tenants. Registration is POST of route.js with its
--   replay of idempotency keys, and Retry is [id]/retry-provisioning/route.js; both call
--   enqueue_tenant_provision of Queue. Presenter is control-center-presenter.js of
--   apps/web/src/modules/platform.
-- Api: the pipeline of apps/web. Cookies is modules/auth/cookie.js; Context is
--   lib/tenant-context.js with `resolveTenantFromRequest`; Platform is `resolvePlatformAuth` and
--   modules/platform/platform-auth-service.js; Pipeline is `withApiHandler` and `errorResponse`
--   of lib/api-utils.js with modules/audit/audit-service.js. A handler is any function on the
--   state, which has the identities, the audit log and a part that is a parameter.
-- Api.Middleware: apps/web/src/middleware.js.
-- Ai: packages/ai/src, and Notifications: packages/notifications/src/notification-service.js.
--   What providers and adapters do is a parameter.
-- Auth: apps/web/src/modules/auth, and Request is `resolveAuthFromRequest` of
--   apps/web/src/lib/api-utils.js. RateLimit is rate-limit.js; RefreshToken, Sessions and Reset
--   are session-service.js over Tables. Hashing, signing, the SQL function lower() and the ids of
--   PostgreSQL are the fields of the parameter External; random tokens are arguments. A row that
--   another tenant owns is neither seen nor changed, as createTenantSql binds the tenant.
--   Sessions.Exchange is rotateRefreshToken transaction by transaction. Routes is
--   apps/web/src/app/api/v1/auth: login with the rate limiter, refresh, logout and passwords.
-- Db: packages/db/src/migrations/schema-name.js and the tests of createTenantSql and
--   assertTenantId in packages/db/src/client.js, over lists of code points.
-- Tests: runs on concrete inputs, and the results below at such inputs.
--
-- Bounds: numbers are native naturals, times are milliseconds. Each operation runs alone, but for
-- two exchanges of one refresh token, which Auth.Sessions.Exchange interleaves by transactions.
-- Columns that the modelled operations neither test nor return are left out, among them most of
-- the times and authors of changes.
--
-- Not modelled: most routes of apps/web, the migrations of the control plane and the seeds,
-- the templates of notifications, and the user interface;
-- PostgreSQL, Redis and BullMQ appear through what the code relies on.
pub mod Prelude
pub mod Shared
pub mod Rbac
pub mod Projects
pub mod Provisioning
pub mod Auth
pub mod Db
pub mod Admin
pub mod Ai
pub mod Notifications
pub mod Api
pub mod Tenants
pub mod Crm
pub mod Tests

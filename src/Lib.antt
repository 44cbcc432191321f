-- ===== src/Lib.antt =====
-- The backend of a VPN control panel: members get devices on VPN nodes, administrators manage
-- members, nodes and the jobs that install nodes.
--
-- The parts, each a module named for the file it models (paths from the repository's root):
--
--   Domain       backend/app/domain/models.py: enumerations and dataclasses.
--   Errors       backend/app/core/errors.py: AppError, its codes and its response.
--   Settings     backend/app/core/config.py: the dataclass Settings, from_env (Settings.FromEnv, with
--                the helpers of Settings.Env) and validate (Settings.Validate).
--   Storage      backend/app/storage/memory.py: the state (Storage.State.Store, one field for each
--                table), the methods (Storage.Tables, Storage.Jobs), and what a call is
--                (Storage.Action: it returns or raises, and keeps what it wrote before a raise).
--   Database     backend/app/storage/db.py and backend/app/db/models.py: the tables
--                (Database.State, Database.Rows), the statements (Database.Storage, Database.Jobs,
--                over Database.Sql), and Database.Refines, which sets the statements on setup jobs,
--                devices, nodes and members beside the methods of Storage.
--   Audit        backend/app/services/audit_service.py; Audit.Redact is _redact.
--   Auth         backend/app/services/auth_service.py.
--   Users        backend/app/services/user_service.py; Users.Patch is the loop of update.
--   Servers      backend/app/services/server_service.py.
--   Devices      backend/app/services/device_service.py.
--   Support      backend/app/services/support_service.py.
--   SetupJobs    backend/app/services/setup_job_service.py.
--   Agent        backend/app/services/agent_client.py, the class AgentClient; Agent.Fake is
--                FakeAgentTransport.
--   Worker       backend/app/workers/setup_worker.py.
--   Api          backend/app/main.py (the CSRF middleware, the routers), backend/app/api/ (routes
--                and dependencies) and the Out models of backend/app/schemas/: a request is a value
--                of Api.Request, and Api.serve answers it.
--   Bootstrap    backend/app/main.py, bootstrap_first_admin.
--
-- A method keeps its name; a part of a method that has a name of its own is a helper beside it.
-- Servers, Devices and Worker call Agent; every service calls Storage and Audit; Worker calls
-- SetupJobs and Servers; Api calls the services. The child modules hold the theorems:
-- SetupJobs.Machine has the state machine of a job, SetupJobs.Calls the calls of the service as
-- data, SetupJobs.Forever their sequences. Tests applies each theorem to a sample.
--
-- Choices of the model:
--   - What the program asks of the world (clock, uuid4, random tokens, hashes, encryption, an
--     agent's reply) is the record Outside; the n-th question of a run gets the n-th answer, and
--     Store.asked counts them. What config.py and the fake agent call of Python's library are the
--     records Settings.Env.Python and Agent.Fake.FakeWorld. Laws of these parts are hypotheses:
--     BoxLaw and SealedLaw (encryption), NormalLaw (lower and strip), NetworkLaw (ip_network),
--     AddressLaw (the text of a number) and QuoteLaw (unquote after quote).
--   - An id is a number, and so is the hash of a token; a time is a number of microseconds, and
--     the start of a window before the first of them is 0. Amounts of money are in hundredths.
--   - A call is one step: the routes hold the storage's lock. What other tasks do while a step of
--     an installation runs is a parameter of Worker.
--   - A dict is a list of pairs in insertion order; an object that a service changes and saves is
--     written back to its table at the save.
--   - A table of the database is the list of its rows in the order of insertion, which also orders
--     rows that tie in an ORDER BY; a statement is one step, and one that raises is none. The
--     services run over Storage; Database stands beside it.
--   - A request arrives with its body validated.
--   - A patch is a list of fields with values of their declared types.
--   - Loops are structural recursion, so nothing needs fuel.
--
-- Not modelled: the In models of pydantic and the answer to what they refuse, CORS and the lifespan
-- of main.py, HttpxAgentTransport, core/security.py (parameters), the start and the stop of the
-- worker (of a stop only what it means for the deployment script, Worker.Deploy), migrations and
-- the connection to the database, foreign keys, the Go agent and the frontend.
pub mod Base
pub mod Dict
pub mod Domain
pub mod Errors
pub mod Outside
pub mod Storage
pub mod Audit
pub mod Settings
pub mod Users
pub mod Auth
pub mod Support
pub mod Agent
pub mod Servers
pub mod Devices
pub mod SetupJobs
pub mod Worker
pub mod Api
pub mod Bootstrap
pub mod Database
mod Tests

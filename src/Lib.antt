-- ===== src/Lib.antt =====
-- A verification library for the job orchestrator: jobs are submitted for tenants, stored in a
-- database, sent to workers over a Redis stream, run under a lease, and retried or dead-lettered.
--
-- The parts and how they work together. The JobManager (src/orchestrator/job_manager.py) owns the
-- tables of tenants, jobs, runs, dependencies and audit entries. It asks the tenant policy
-- (src/tenancy/policy.py) before it creates jobs, and puts ready jobs into the stream
-- (src/db/stream_queue.py). The scheduler (src/orchestrator/scheduler.py) selects a PENDING job whose
-- parents are completed and enqueues it. A worker (src/orchestrator/worker.py) takes a message, gets
-- the lease of its job (src/db/lease_store.py), runs it, and lets the JobManager record the result,
-- whose long texts go to files (src/storage, src/core/output.py). The autoscaler
-- (src/orchestrator/autoscaler.py) starts and stops workers by the backlog.
--
-- Files and code:
--   Prelude     names that all files share: tests, lists, integers, texts
--   Settings    src/core/config.py: the settings as a record, the check of the secrets
--   Job         src/models/job.py: jobs, runs, requests; Job/Validate: the limits on their fields
--   Services    what the program calls and does not implement, as the record `Env`: the tables behind
--               SQLAlchemy with the laws of keys, the Redis server, uuid4, the collation,
--               the length of JSON texts;
--               Services/Listed: tables as lists, which meet these laws
--   Db          src/db/models: the rows, and what the keys of the tables refuse
--   Principal   src/models/auth.py: roles and principals
--   World       the state that the processes share (committed tables, Redis server, time, commands
--               sent, log files) and results that may be errors
--   Stream      src/db/stream_queue.py, the class JobStreamQueue
--   Lease       src/db/lease_store.py, the class JobLeaseStore
--   Policy      src/tenancy/policy.py, the class TenantPolicyService
--   RateLimit   src/tenancy/rate_limit.py, the class RateLimiter
--   Auth        src/auth/service.py, the class ApiKeyService; Auth/Access: src/auth/deps.py;
--               Auth/ServiceAccounts: src/auth/service_account_service.py, the class
--               ServiceAccountService; Auth/Tokens: src/auth/jwt_service.py, the class JwtService,
--               and src/api/auth_routes.py
--   Api         src/api: Api/Jobs: routes.py, Api/Admin: admin_routes.py; a route is `authorize` and
--               then its function, and answers with a status; Api/Server: health.py and
--               src/tenancy/middleware.py
--   Output      src/core/output.py, src/storage/run_logs.py and src/storage/log_store.py
--   Executor    src/orchestrator/executors/base.py: the result of running a job; Executor/Runner:
--               executors/registry.py and runners/subprocess_runner.py beside it;
--               Executor/Dispatch: the executors and execute_job; Executor/Child:
--               runners/child.py; Executor/Isolation relates the two
--   Manager     src/orchestrator/job_manager.py, the class JobManager: what its methods share, and
--               below it Create (create_job), Dag (create_dag), Lifecycle (update_job_status,
--               cancel_job, retry_job), Models (_to_model), Runs (start_run, finish_run, the reading of runs and logs),
--               Failure (handle_execution_failure) and Queries (list_jobs, list_dlq)
--   Worker      src/orchestrator/worker.py: _process_message and a round of run_worker;
--               Worker/Heartbeat: _start_heartbeat beside an isolated run
--   Agent       src/rl_engine: encode_state, calculate_reward and RLAgent.select_action
--   Scheduler   src/orchestrator/scheduler.py: select_by_edf and Scheduler.run
--   Autoscaler  src/orchestrator/autoscaler.py: compute_desired_workers, get_backlog, Autoscaler;
--               Autoscaler/Docker: DockerWorkerScaler
--   Startup     src/core/secrets.py, and the settings that src/main.py starts with
--   Tests       a small system on which each result is applied
--
-- How the code is written down. A method is a function of the state that returns its result and the
-- next state. A method that raises returns an error and the state that is then committed: a session
-- works on a copy of the tables, which is dropped when it raises. Each Redis command is one step of
-- the server, whose replies are a parameter. Moments and durations are natural numbers and integers
-- of microseconds, so nothing overflows; numbers in JSON are in millionths. A dictionary of settings
-- or rows is a record, `None` is `none`. Loops are recursion on the list that they run over. The
-- decimal digits of a number are computed on one step of fuel more than the number, which has fewer
-- digits than that.
--
-- What is not modelled: transactions of different processes that overlap (each one is taken as a
-- whole); the lengths of text columns and the columns schedule_id and updated_at; the JSON text of
-- a payload, whose length is a field of `Env`; the exception of get_job and update_job_status for a
-- row that the validators of `Job` refuse, where a worker or a route reads a job (create_dag,
-- list_jobs, cancel_job, retry_job and are_dependencies_met have it, so that no such row is sent to
-- a worker); what other processes do while a job runs, which is part of the worker's argument
-- `run_job`; the system calls that start and end the child process of the runner, its argument
-- `spawn`; the neural network of the scheduler's agent, which is the argument `network`; the Docker
-- client below the autoscaler, which is the argument `docker`; the digest SHA-256, which is the
-- argument `sha256`, and PyJWT, which is the argument `lib`; logging, the rest of the start of the
-- application, training, the dashboard, migrations and scripts.
mod Prelude
pub mod Settings
pub mod Job
pub mod Principal
pub mod Services
pub mod Db
pub mod World
pub mod Stream
pub mod Policy
pub mod RateLimit
pub mod Output
pub mod Executor
pub mod Manager
pub mod Auth
pub mod Api
pub mod Lease
pub mod Worker
pub mod Agent
pub mod Scheduler
pub mod Autoscaler
pub mod Startup
pub mod Tests

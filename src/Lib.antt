-- ===== src/Lib.antt =====
-- The Renovate operator: a Kubernetes operator that runs Renovate for the projects of RenovateJob
-- resources. This library models its core in Go under src/ and states what makes it correct.
--
-- The parts and how they meet. A RenovateJob resource (Api: src/api/v1alpha1/renovatejob_types.go)
-- holds the list of projects in its status. The life of one project is a small state machine (Project:
-- src/internal/utils/projectStatus.go). All changes go through the manager (Manager:
-- src/internal/crdManager/renovateJobManager.go, with loadRenovateJob.go and updateRenovateJob.go),
-- which reads the resource, computes a new list (Manager/Lists), writes the status and repeats on a
-- conflict. Two servers call the manager: the webhook server (Webhook: src/webhook) for the events of
-- GitHub, GitLab and Forgejo, behind the manager's check of tokens and signatures (Manager/Tokens),
-- and the user interface (Ui: src/ui/renovateController.go), behind the groups of a session
-- (Ui/Groups: src/ui/group_validation.go). Metrics is src/metricStore/metrics.go. Jobs is
-- the lookup, the creation and the cleanup of Kubernetes jobs by their labels
-- (src/internal/crdManager/jobManager.go), Executor one round of the executor, which settles the projects
-- whose job has ended and starts the scheduled ones (src/internal/renovate/executor.go, where
-- reconcileProjects is execute_reconcile, with jobHelper.go), and Names the names of those jobs
-- (src/internal/utils/jobNames.go, with platformEndpoints.go). Definitions is what those jobs are
-- (src/internal/renovate/jobDefinitions.go, over the Kubernetes types of Pod), Pods whose log is read, Logs
-- what a log says (src/internal/parser/logParser.go), and Discovery how the projects of a job are found
-- (src/internal/renovate/discoveryAgent.go, podLogs.go). Scheduler is the table of cron schedules
-- (src/scheduler/scheduler.go) with the health record (Health: src/health/health.go). Ui/Session is the
-- session cookie and the middleware of the interface (src/ui/auth.go), Ui/Login the login at an OIDC
-- provider or GitHub (src/ui/oidc.go, github_oauth.go). Forgejo is one round of the sync of webhooks to a
-- Forgejo server (src/internal/forgejo/sync.go), and Forks the filter of forks
-- (src/internal/gitprovider/client.go). Examples runs the theorems on small clusters.
--
-- State and operations. The API server, the Prometheus vectors and the clock are not in the
-- repository: they are a record Client of functions over an unknown world W (Kube), and ClientLaws
-- (Kube/Laws) says what their documentation promises: reads return what is stored, a status write
-- succeeds only on the version it was read at, RetryOnConflict runs its function at most five times
-- and again only after a conflict, whether a write that ends in another error was made is unknown, and
-- others may write between any two calls. An operation is a
-- function from a world to a result and a world, a do block in the order of the source's calls; an
-- error keeps what was done before it. A nil dereference is the error panic. A function of the source
-- has the same name here in lower case with underscores (UpdateProjectStatus is update_project_status);
-- updateExecutionOptions of the interface is set_execution_options, the type RenovateProjectStatus of the
-- manager is ProjectInfo. Loops are recursion over the list that the source walks. Only the
-- wait for a discovery job is on fuel, since it has no limit: it is proved to give its answer with any
-- fuel from some number on whenever the questions for the status come to an end.
--
-- Choices. A text is the list of its code points; byte_len is its length in bytes. The case table of
-- package unicode above ASCII, HMAC-SHA256, compiled patterns, encoding/json and the parsing of forms
-- are parameters of the definitions that use them. A pointer to a value that may be nil is an Option.
-- A time is a number, with 0 for the zero time. The clock is read once for each attempt of a write.
-- The priority is an unbounded integer, since it is only compared and copied.
--
-- Not modelled: logging, the locks of the manager, the scheduler and discovery (each operation is one
-- call, and the laws let others write at any point), routing and JSON output beyond the status code, the
-- message and the cookies, the executor's timer and its lock for each job, the controller, the HTTP
-- clients of the git providers and of Forgejo, logout and program start.
pub mod Prelude
pub mod Pod
pub mod Api
pub mod Project
pub mod Kube
pub mod Metrics
pub mod Manager
pub mod Names
pub mod Jobs
pub mod Definitions
pub mod Logs
pub mod Pods
pub mod Discovery
pub mod Executor
pub mod Health
pub mod Scheduler
pub mod Forgejo
pub mod Forks
pub mod Http
pub mod Webhook
pub mod Ui
pub mod Examples

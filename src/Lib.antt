-- ===== src/Lib.antt =====
-- AlpineJudge: a judge of programs. The dispatcher (dispatcher/) takes submissions over HTTP,
-- checks them against object storage and puts them on a RabbitMQ queue; the runner (runner/) takes
-- jobs from the queue, gives each a warm container and the testset from storage, and forwards what
-- happens in it; the agent (ajagent/) lives in the container, compiles the submission, runs it on
-- each test and sends events and one final result over a Unix socket. shared/ holds the clients of
-- storage and of RabbitMQ.
--
-- The files and the code they model:
--   Agent.Verdict, Agent.Session: ajagent/internal/utils.go and `RunnerAgent` of ajagent.go. A
--     session is the list of events it sends and how it ends. The socket, `encoding/json`, the
--     compiler, which may never end, and the tests' processes are the fields of `Container` and
--     `Sandbox`.
--     Agent.Session.Judging has the judgement of a testset as functions of the list of its runs,
--     which Agent.Session.Judging.Matching compares the session with; Agent.Session.Output is about
--     the size of its events.
--   Agent.RunTest: `runTestCase` of runtest.go, on every alternative of its `select`.
--   Agent.LimitWriter: limitwriter.go; int64 arithmetic is written out modulo 2^64.
--   Agent.Signals: sighandler.go; the comparison at 95% is written out in integers.
--   Agent.FindTestFiles: findtestfiles.go, over Common.FilePath for `path/filepath`.
--   Dispatcher.Validate: dispatcher/internal/prepare.go and specs.go.
--   Dispatcher.Endpoints: the handlers of dispatcher/internal/endpoints.go. A handler gives its
--     response and its operations at the broker.
--   Dispatcher.Startup: dispatcher/pkg/dispatcher.go and `InitHTTPServer`, from the environment to
--     the end.
--   Shared.S3: shared/s3manager.go. The SDK's client is the record `S3Client`, the disk the record
--     `Disk`; a download is its error and the list of its effects. Shared.S3.Upload is
--     `UploadDirToS3` over the visits of a walk, Shared.S3.Buckets the manager and its buckets.
--   Shared.Rmq: shared/rmqmanager.go. The AMQP client is the record `Broker`.
--     Shared.Rmq.Piping is the goroutine of a subscription, as a step relation in which it, the
--     broker, the receiver and the context take turns in any order.
--   Runner.Prepare: runner/internal/preparation.go, downloadfiles.go and `Build_AgentExecSpec`.
--   Runner.Oci: `build_ociSpecOpts` of runner/internal/buildSpecs.go. Runner.Images: pullImage.go and
--     gencontainerid.go.
--   Runner.Orchestrate: runner/pkg/orchestrator.go, as the list of its acts and its outcome.
--   Runner.ExecSubm: runner/internal/exesubmission.go and router.go; Runner.ExecSubm.Scanning
--     is the goroutine that reads the agent's socket, with the bounds of its scanner.
--   Runner.WarmContainer: runner/internal/warmcontainer.go, as the operations on containerd.
--   Runner.Engine: runner/pkg/engine.go and runner/utils/validator.go. The producer and the workers
--     are a step relation on the slots of the warm containers, in any order of steps.
--     Runner.Engine.Pool is the pool of slots that they implement, as a quotient of the lists.
--     Runner.Engine.Serving is the loop over the deliveries and its end.
--   Runner.Startup: runner/pkg/runner.go, and `InitRunner` up to its loops.
--   Utils.Executes, Shared.Specs: the records of runner/utils and shared/specs.go. Utils.Logs is
--     `StreamContainerLogsToRMQ`.
--   Pipeline: how the parts work together, from a submission to its worker and from the agent's
--     events to the frames of a client. It defines no code of its own. The runner kills a container
--     at its timeout: what the agent has sent by then is the first k events of its session.
--   Examples: runs at concrete inputs.
--
-- Loops. The agent's loop over the tests has no bound of its own: `runner_agent` takes fuel, which
-- is enough when one of the test numbers up to it has no files (`HasGap`). The attempts to connect
-- to RabbitMQ are on fuel too, also where the runner and the dispatcher start; one more than the
-- number of failures is enough. `Testset` lists the runs of tests 1 to n, for which more than n is
-- enough. The digits of a
-- number are printed on fuel `n + 1`. All other loops are structural.
--
-- Numbers are natural numbers; a machine integer that can wrap around is written modulo its size.
-- Texts are lists of bytes. An error of Go is its text.
--
-- Not modelled: the `main` functions, which set the logger; the matching of requests by the HTTP
-- multiplexer, whose routes are data; the effect of the OCI options in containerd; the bits of
-- floating-point numbers (the CPU quota is a parameter); timing, other than the waits between the
-- attempts to connect; the types of configs.go, monitor.go and scheduler.go and the defaults
-- `SandboxLimits`, which nothing uses; logging.
pub mod Common
pub mod Utils
pub mod Agent
pub mod Shared
pub mod Dispatcher
pub mod Runner
pub mod Pipeline
pub mod Examples

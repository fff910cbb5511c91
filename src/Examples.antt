-- ===== src/Examples.antt =====
-- Runs of the models at concrete inputs.
pub mod AgentRuns
pub mod DispatcherRuns
pub mod SharedRuns
pub mod RunnerRuns
pub mod StreamRuns
mod ContainerRuns
mod StartupRuns
mod PipelineRuns
mod SubmissionRuns
mod ClientRuns

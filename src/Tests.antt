-- ===== src/Tests.antt =====
-- A small machine, and the theorems at inputs that it gives.
pub mod Machine
mod PmapExamples
mod EnvExamples
mod CallExamples
mod FsExamples
mod StringExamples
mod TrapExamples
mod ServeExamples
mod PrintExamples
mod ForkExamples
mod ConsoleExamples
mod DebugExamples
mod FdExamples
mod FaultExamples
mod ReadlineExamples
mod MonitorExamples

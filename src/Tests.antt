-- ===== src/Tests.antt =====
-- Tests of the models on concrete inputs, and the theorems applied at inputs where their hypotheses hold.
mod Samples
mod IncidentRuns
mod SchedulerRuns
mod MissionRuns
mod RouterRuns
mod TraceRuns
mod RuntimeRuns
mod DeliveryRuns
mod ContractRuns
mod TieringRuns
mod PathRuns
mod OrchestrationRuns

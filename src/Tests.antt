-- ===== src/Tests.antt =====
-- Runs of the models at concrete inputs, and each property at an input that meets its conditions.
mod StoreRuns
mod ProviderRuns
mod LabelRuns
mod WorkerRuns
mod AuthRuns
mod CompilerRuns
mod ApiRuns
mod HandlerRuns
mod AcmeRuns

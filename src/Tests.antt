-- ===== src/Tests.antt =====
-- Runs of the definitions and the theorems at concrete data.
mod Toy
mod StoreRuns
mod ConfigRuns
mod SourceRuns
mod RouterRuns
mod ListenRuns
mod LoadRuns
mod ClientRuns
mod ThreadRuns
mod ExporterRuns
mod CommandRuns

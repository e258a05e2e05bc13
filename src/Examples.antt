-- ===== src/Examples.antt =====
-- Concrete runs of the model, a file for each part of the program.
mod CookieRuns
mod ProofRuns
mod AuthRuns
mod StepUpRuns
mod ReaderRuns
mod ErrorRuns
mod RouteRuns
mod CeremonyRuns
mod ProxyRuns
mod SignInRuns

-- ===== src/Tests.antt =====
-- Runs of the models on concrete inputs, and the properties at inputs that meet their hypotheses.
mod LiveRouter
mod PaperRouter
mod Ingestion
mod Strategy
mod Pricing
mod Selector
mod Reconcile
mod Telemetry
mod Research
mod AutoPilot
mod Market
mod Worker
mod Telegram
mod StreamWorker

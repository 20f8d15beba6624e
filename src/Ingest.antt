-- ===== src/Ingest.antt =====
-- Ingestion of documents: the GPU lease, the chunker and the service.
pub mod Run
pub mod GpuLease
pub mod Schema
pub mod Admission
pub mod Engines
pub mod Service
pub mod Chunker
pub mod Activity
mod Examples

-- ===== src/Tests.antt =====
-- Examples: concrete instances of the parameters, and each theorem at a concrete input.
pub mod Codec
pub mod Instances
pub mod RoutesExamples
pub mod ApiExamples
pub mod BlossomExamples
pub mod RelayExamples
pub mod SessionExamples
pub mod PaymentsExamples
pub mod MirrorExamples
pub mod AdapterExamples
pub mod RuneExamples
pub mod QueryExamples
pub mod MaintenanceExamples

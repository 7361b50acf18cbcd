-- ===== src/Build.antt =====
-- The generators of the build: tools/crd-generator, tools/manifest-generator and tools/csv-generator.
pub mod Crds
pub mod GoSource
pub mod Readable
pub mod Manifests
pub mod Printed
pub mod Tests

-- ===== src/Certs.antt =====
-- pkg/certificates: parsing keys and certificates, issuing them, and keeping them current.
pub mod Pem
pub mod Current
pub mod Watch
pub mod Crypto
pub mod Issue

-- ===== src/Cert.antt =====
-- cert/: the wire formats of Merkle Tree Certificates.
pub mod TrustAnchorId
pub mod Der
pub mod Wire
pub mod Proof
pub mod Serial
pub mod Signing
pub mod Quorum

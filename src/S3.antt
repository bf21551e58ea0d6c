-- ===== src/S3.antt =====
-- engine/src/s3: the signature of a request to an S3 bucket, and the XML of its answers.
pub mod Sign
pub mod Encoding
pub mod Query
pub mod Signature
pub mod Xml
pub mod Escapes
pub mod Elements
mod Examples

-- ===== src/Validation.antt =====
-- backend/app/utils/file_validation.py: content validation of uploads. A byte string is a list of
-- numbers, and a text is the list of its code points.
pub mod Utf8
pub mod MediaType
pub mod Signature
pub mod Stream
pub mod Spoofing
pub mod Exclusive
pub mod Characters
pub mod Boundary

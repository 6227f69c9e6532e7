-- ===== src/Wire.antt =====
-- util/serializer.h
pub mod Words
pub mod Buffer
pub mod Serializer
pub mod Reads
pub mod RoundTrip
pub mod Ends
pub mod Prims
pub mod Containers
pub mod Structs
mod Examples

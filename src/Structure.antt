-- ===== src/Structure.antt =====
-- Structures of src/pyads/ads.py: `size_of_structure`, `dict_from_bytes` and `bytes_from_dict`, which
-- carry whole PLC structures between bytes and nested Python dicts.
pub mod Value
pub mod Scalar
pub mod Texts
pub mod Codec
pub mod Fits
pub mod Positions
pub mod RoundTrip
pub mod Structures
pub mod Limits

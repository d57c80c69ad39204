-- ===== src/ObjStoreAuth.antt =====
-- src/obj_store_auth/obj_store_auth.cc: the plugin that signs requests to an object store.
pub mod Files
pub mod RegionMap
pub mod Config
pub mod ConfigFile
pub mod ConfigCache
pub mod Reload
pub mod Credentials
pub mod S3Request
pub mod Remap

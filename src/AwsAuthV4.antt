-- ===== src/AwsAuthV4.antt =====
-- src/obj_store_auth/aws_auth_v4.cc: the AWS Signature Version 4 utility.
pub mod Sodium
pub mod Encode
pub mod Trim
pub mod Query
pub mod Headers
pub mod Region
pub mod Defaults
pub mod Request
pub mod TsApi
pub mod Authorization

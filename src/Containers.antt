-- ===== src/Containers.antt =====
-- `std::set<std::string>` and `std::map<std::string, std::string>` as the code uses them
-- (`StringSet` and `StringMap` of src/obj_store_auth/aws_auth_v4.h): ascending lists.
pub mod StringSet
pub mod StringMap
pub mod Extensionality

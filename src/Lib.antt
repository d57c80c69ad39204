-- ===== src/Lib.antt =====
-- A collection of plugins for Apache Traffic Server: one that signs requests to an object store, with
-- the AWS version 4 signing code that it contains; two that add header fields; one that answers with
-- a file; an example of the remap API; and the wrapper of LMDB and the setup program that the
-- first one uses.
--
-- Parts, and how they work together. The collection's plugins do not call each other. The server
-- calls the signing plugin before it sends a request to the origin. `S3Request::authorize`
-- (src/obj_store_auth/obj_store_auth.cc) takes the user's keys from an LMDB record, sets the
-- x-amz-* headers, and asks `AwsAuthV4` (src/obj_store_auth/aws_auth_v4.cc, aws_auth_v4.h) for the
-- Authorization header, which reads the request through `TsApi` (aws_auth_v4_wrap.h). The rule's
-- configuration, `S3Config`, comes from the plugin's arguments and from a file that `ConfigCache`
-- keeps for a minute; `config_reloader` reads it again before the session token expires.
-- src/lmdb_setup/lmdb_setup.cc writes the LMDB records, through the wrapper include/lmdb-cpp.h.
--
-- Files.
-- Base: shared names; the children have lists over the native numbers, byte strings, the character
--   classes of the C locale, `std::getline` and `find`, and the conversions of <cstdlib>.
-- Containers: `std::set<std::string>` and `std::map<std::string, std::string>` as sorted lists.
-- AwsAuthV4: src/obj_store_auth/aws_auth_v4.cc. Encode has the encoders, Trim the trimming and
--   `commaSeparateString`, Query and Headers the two loops of `getCanonicalRequestSha256Hash`, Request
--   that function, Region `getRegion`, Defaults the default map and sets, Authorization the class and
--   the signature, Sodium the functions of libsodium, TsApi the classes of aws_auth_v4_wrap.h.
-- ObjStoreAuth: src/obj_store_auth/obj_store_auth.cc. Files has `makeConfigPath`, RegionMap
--   `loadRegionMap`, Config `S3Config`, ConfigFile `parse_config`, with the
--   settings of a file in ConfigFile.Settings, ConfigCache `ConfigCache::get`,
--   Reload the scheduled reloads, Credentials the LMDB record, S3Request the signing of a request,
--   Remap the functions that the server calls. ConfigCache.Refinement has what the cache promises, as
--   a function from paths; ConfigCache.Threads the steps of threads that meet at an entry.
-- Lmdb: include/lmdb-cpp.h, a state with the transaction object and the released handles; Setup has
--   src/lmdb_setup/lmdb_setup.cc, Keys the uses of LMDB in
--   src/obj_store_auth/obj_store_auth.cc, and Authorize the transaction of `authorizeV4`.
-- Echo: src/remap_echo/remap_echo.cc. Intercept has the events of one answer, Delivery, Restarts and
--   Completion three orders of them.
-- Remap: src/remap/remap.cc. Entries has the list of instances, in a store of addresses; Requests
--   `TSRemapDoRemap`.
-- AddHeader: src/add_header/add_header.cc, the plugin that adds its fields to every request.
-- HeaderAdd: src/remap_header_add/remap_header_add.cc, the plugin that adds the header fields that its
--   arguments name.
-- Tests: the theorems at concrete inputs.
--
-- Correspondence. Definitions carry the source's names in lower case: `get_region` is `getRegion`.
-- A `std::string` is a list of its bytes as numbers below 256; `char` is signed, so `uri_encode`
-- prints the sign bits of a byte from 128 up. Members of a class are the fields of a record, and a
-- null pointer is `none`. An exception is `none`, the status that its handler returns, or, in Lmdb,
-- `thrown` with the code of the library. In Remap, an `int` that overflows and a write past the end
-- of the buffer are `none`.
--
-- Parameters. What is not in the repository is an argument: libsodium (`Sodium`), the text view
-- (`TextView`) and buffer writer (`BufferWriter`) of libswoc, the file system (`Files`), the header
-- fields of a request (`Mime`, `Http`, `Api`), the server's scheduled actions (`Actions`), the time,
-- and the calls of LMDB (`Library`; `Contents` is what a successful put and commit do). Their laws
-- are the documented behaviour that the code relies on, and the modules of Tests have an instance of
-- each.
--
-- Fuel. `getRegion`, the loop over the fields of one name, the loop over a request's header and the
-- loop of `remove_from_list` take a number of rounds and return `none` when it is used up. One round
-- more than the host name has bytes is enough for the first, unless the host name begins with a dot;
-- one more than there are other fields, fields, and instances for the others.
--
-- Not modelled. src/remap_passthru/remap_passthru.cc and src/hello/hello.cc, whose entry points log
-- and return; debug output; the mutexes; threads that insert different entries into the map of the
-- cache at once; the creation and release of handles but where they are counted; the splitting of
-- the command line by `getopt_long`, whose options are an argument; YAML and the creation of the
-- directory of the database; a `long` that overflows in `delay * 1000`, which needs an expiration
-- some 290 million years ahead; the life of the two key views beyond the transaction. A `TSAssert`
-- has no effect, as in a server that is built without DEBUG.
pub mod Base
pub mod Containers
pub mod AwsAuthV4
pub mod ObjStoreAuth
pub mod HeaderAdd
pub mod Echo
pub mod Remap
pub mod Lmdb
pub mod AddHeader
pub mod Tests

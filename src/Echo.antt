-- ===== src/Echo.antt =====
-- src/remap_echo/remap_echo.cc: the plugin that answers each request of a remap rule with a file.
-- Here its configuration, the start of an intercept and the response header; the intercept's
-- events are in Intercept.
pub mod Intercept
pub mod Writes
pub mod Answer
pub mod Delivery
pub mod Restarts
pub mod Completion
use ats_plugin_experiment.Base.{
  ℕ, Bool, true, false, not, ◌&&◌, ◌||◌, ◌==◌, Option, none, some, List, [], ◌∷◌, ◌++◌, Bytes,
  codes, length, is_empty, ℤ, pos, strtol, to_int, if◌then◌else◌, ◌≡◌,
}

-- `std::filesystem` and the files: whether a path is absolute, a path below the configuration
-- directory, `weakly_canonical`, and what is read; `none` where the file cannot be opened.
pub record FileSystem : Type 0 where
  pub is_absolute : Bytes → Bool
  pub below_config_dir : Bytes → Bytes
  pub weakly_canonical : Bytes → Bytes
  pub read : Bytes → Option Bytes

pub record RemapEchoConfig : Type 0 where
  pub content : Bytes
  pub mime_type : Bytes
  pub status_code : ℤ

-- The constructor. A file that cannot be opened gives an empty content.
unfoldable pub new_config : FileSystem → Bytes → Bytes → ℤ → RemapEchoConfig
new_config fs path mime_type status_code =
    let based = if not (fs.is_absolute path) then fs.below_config_dir path else path in
    record {
      content = elim (fs.read (fs.weakly_canonical based)) [ none ↦ [] | some text ↦ text ];
      mime_type = mime_type;
      status_code = status_code;
    }

-- What `getopt_long` finds. The short option `-s` is listed without a colon, so its `optarg` is a
-- null pointer.
pub data Opt : Type 0 where
  content_path : Bytes → Opt
  mime_type : Bytes → Opt
  status_code : Option Bytes → Opt
  ignored : Opt

-- The locals of `TSRemapNewInstance`.
pub record Options : Type 0 where
  pub content_path : Bytes
  pub mime_type : Bytes
  pub status_code : ℤ

abbrev pub default_options : Options
default_options = record { content_path = []; mime_type = codes "text/plain"; status_code = pos 0 }

-- `none` where `atoi` is given a null pointer.
unfoldable pub apply_opt : Opt → Options → Option Options
apply_opt (content_path s) o = some (record o { content_path = s })
apply_opt (mime_type s) o = some (record o { mime_type = s })
apply_opt (status_code none) o = none
apply_opt (status_code (some s)) o = some (record o { status_code = to_int (strtol s) })
apply_opt ignored o = some o

unfoldable pub apply_opts : List Opt → Options → Option Options
apply_opts [] o = some o
apply_opts (opt ∷ opts) o = elim (apply_opt opt o) [ none ↦ none | some p ↦ apply_opts opts p ]

-- The inner `none` is `TS_ERROR`.
unfoldable pub remap_new_instance : FileSystem → List Opt → Option (Option RemapEchoConfig)
remap_new_instance fs opts = elim (apply_opts opts default_options) [
  | none ↦ none
  | some o ↦ some (
      if is_empty o.content_path
      then none
      else some (new_config fs o.content_path o.mime_type o.status_code))
]

-- One answer under way. `P` is the state of the request parser; `written` is what has been put into
-- the write buffer, and `write_nbytes` the byte count of the write operation, `none` before it is
-- started.
pub record RemapEchoRequest (P : Type 0) : Type 0 where
  pub nbytes : ℕ
  pub status_code : ℤ
  pub content : Bytes
  pub mime_type : Bytes
  pub parser : P
  pub written : Bytes
  pub write_nbytes : Option ℕ

unfoldable pub create_request : {P : Type 0} → P → RemapEchoConfig → RemapEchoRequest P
create_request parser tc = record {
  nbytes = length tc.content;
  status_code = tc.status_code;
  content = tc.content;
  mime_type = tc.mime_type;
  parser = parser;
  written = [];
  write_nbytes = none;
}

pub data TxnStatus : Type 0 where
  status_none : TxnStatus
  status_ok : TxnStatus
  other_status : TxnStatus

pub data RemapCall : Type 0 where
  set_internal_server_error : RemapCall
  disable_cache : RemapCall

-- `TSRemapDoRemap`: the intercept that is set up, if any. The request is never remapped.
unfoldable pub remap_do_remap :
    {P : Type 0}
    → P
    → TxnStatus
    → Option RemapEchoConfig
    → List RemapCall × Option (RemapEchoRequest P)
remap_do_remap parser other_status ih = ([], none)
remap_do_remap parser _ none = (set_internal_server_error ∷ [], none)
remap_do_remap parser _ (some cfg) = (disable_cache ∷ [], some (create_request parser cfg))

-- `RemapEchoTxnHook` at `TS_EVENT_HTTP_CACHE_LOOKUP_COMPLETE`: whether the lookup was a fresh hit,
-- and whether the method is GET; `none` where the server does not give it. The transaction goes on in
-- any case.
unfoldable pub txn_hook :
    {P : Type 0}
    → P
    → RemapEchoConfig
    → Option Bool
    → Bool
    → Option Bool
    → Option (RemapEchoRequest P)
txn_hook parser cfg none has_request is_get = none
txn_hook parser cfg (some hit) false is_get = none
txn_hook parser cfg (some hit) true none = none
txn_hook parser cfg (some hit) true (some is_get) =
    if not hit || not is_get then some (create_request parser cfg) else none

-- The value of a header field.
pub data FieldValue : Type 0 where
  int_value : ℕ → FieldValue
  string_value : Bytes → FieldValue

pub record ResponseHeader : Type 0 where
  pub status : ℤ
  pub fields : List (Bytes × FieldValue)

-- The server's HTTP headers and parser: which of the calls that make a header succeed, how a header
-- is printed, and how a piece of a request is parsed. A header's length is that of its print.
pub data ParseResult : Type 0 where
  parse_error : ParseResult
  parse_done : ParseResult
  parse_cont : ParseResult

pub record Http (P : Type 0) : Type 0 where
  pub type_set : Bool
  pub version_set : Bool
  pub status_set : ℤ → Bool
  pub print : ResponseHeader → Bytes
  pub header_length : ResponseHeader → ℕ
  pub header_length-print : (h : ResponseHeader) → header_length h ≡ length (print h)
  pub parse : P → Bytes → P × ParseResult

-- The fields of `WriteResponseHeader`, in the order that they are appended.
unfoldable pub response_header : {P : Type 0} → RemapEchoRequest P → ℤ → ResponseHeader
response_header trq status = record {
  status = status;
  fields =
      (codes "Content-Length", int_value trq.nbytes)
      ∷ (codes "Cache-Control", string_value (codes "no-cache"))
      ∷ (codes "Content-Type", string_value trq.mime_type)
      ∷ [];
}

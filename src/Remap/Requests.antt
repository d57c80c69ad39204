-- ===== src/Remap/Requests.antt =====
-- `TSRemapDoRemap` and `TSRemapOSResponse` of src/remap/remap.cc. The debug output is left out.
use ats_plugin_experiment.Base.{
  ℕ, zero, suc, ◌+◌, ◌-◌, ◌%◌, ◌^◌, Bool, ◌&&◌, ◌==◌, leb, ltb, if◌then◌else◌, Option, none, some,
  [], ◌++◌, Bytes, codes, bytes_eq, take, drop, length, ℤ, negsuc,
}

-- `processing_counter`, a 64-bit counter of the requests, and the `static int` of the pages, which
-- starts at 0 and only grows.
pub record Counters : Type 0 where
  pub processing_counter : ℕ
  pub my_local_counter : ℕ

-- The request URL and the port of the URL of the rule.
pub record RequestInfo : Type 0 where
  pub host : Bytes
  pub path : Bytes
  pub port : ℕ
  pub map_to_port : ℕ

-- What the calls of the API return: whether a slot is reserved, and whether the setters succeed.
pub record Api : Type 0 where
  pub slot_reserved : Bool
  pub port_set : Bool
  pub host_set : Bool
  pub path_set : Bool

-- What the transaction gets: the stored counter, the status, and the number on the page.
pub record Transaction : Type 0 where
  pub user_arg : Option ℕ
  pub status : Option ℕ
  pub page : Option ℕ

pub data RemapStatus : Type 0 where
  no_remap : RemapStatus
  did_remap : RemapStatus

-- `TS_HTTP_STATUS_CONTINUE`.
abbrev pub status_continue : ℕ
status_continue = 100

-- `+` on `int`s that are not negative; an overflow is undefined behaviour: `none`.
abbrev pub add_int : ℕ → ℕ → Option ℕ
add_int a b = if ltb (a + b) (2 ^ 31) then some (a + b) else none

-- Every other request gets a status and a page; `none` where an `int` overflows.
unfoldable pub interrupt : ℕ → Counters → Transaction → Option (Counters × Transaction)
interrupt n c txn =
    if n % 2 == 1
    then elim (add_int status_continue c.my_local_counter) [
      | none ↦ none
      | some status ↦ elim (add_int c.my_local_counter 1) [
        | none ↦ none
        | some next ↦ some (
          record c { my_local_counter = next },
          record txn { status = some status; page = some c.my_local_counter },
        )
      ]
    ]
    else some (c, txn)

-- The test on host, port and path.
unfoldable pub is_hardcoded : RequestInfo → Bool
is_hardcoded r =
    length r.host == 10
    && bytes_eq (take 10 r.host) (codes "flickr.com")
    && r.port == 80
    && leb 3 (length r.path)
    && bytes_eq (take 3 r.path) (codes "47/")

-- `memcpy` behind what the buffer `new_path` of 8192 bytes holds; `none` where it writes past the
-- end of the buffer.
unfoldable pub copy_behind : Bytes → Bytes → Option Bytes
copy_behind buffer bytes =
    if leb (length buffer + length bytes) 8192 then some (buffer ++ bytes) else none

-- The two copies.
unfoldable pub new_path : Bytes → Option Bytes
new_path path = elim (copy_behind [] (codes "47_copy")) [
  | none ↦ none
  | some buffer ↦ copy_behind buffer (take (length path - 2) (drop 2 path))
]

-- The rest of `TSRemapDoRemap`, with the URL that it leaves; `none` where it writes past the end of
-- the buffer. A setter that fails leaves its URL.
unfoldable pub remap_hardcoded : Api → RequestInfo → Option (RemapStatus × RequestInfo)
remap_hardcoded api r =
    if is_hardcoded r
    then if leb 8192 (length r.path + 7)
      then some (no_remap, r)
      else if api.port_set
      then if api.host_set
        then elim (new_path r.path) [
          | none ↦ none
          | some buffer ↦
              if api.path_set
              then some (
                did_remap,
                record r { host = codes "foo.bar.com"; path = take (length r.path + 5) buffer },
              )
              else some (no_remap, record r { host = codes "foo.bar.com" })
        ]
        else some (no_remap, r)
      else some (no_remap, r)
    else some (no_remap, r)

abbrev pub store_counter : Bool → ℕ → Transaction → Transaction
store_counter reserved n txn = if reserved then record txn { user_arg = some n } else txn

-- What `TSRemapDoRemap` leaves: what it returns with the URL, the transaction, and the counters.
abbrev pub Remapped : Type 0
Remapped = ((RemapStatus × Option RequestInfo) × Transaction) × Counters

-- `TSRemapDoRemap`: whether `ih` is an instance, and the request where there is one; `none` where an
-- `int` overflows or the buffer does.
unfoldable pub do_remap : Bool → Option RequestInfo → Api → Transaction → Counters → Option Remapped
do_remap instance_given rri api txn c =
    let n = c.processing_counter in
    let counted : Counters = record c { processing_counter = (n + 1) % 2 ^ 64 } in
    elim rri [
      | none ↦ some (((no_remap, none), txn), counted)
      | some r ↦
          if instance_given
          then elim (interrupt n counted (store_counter api.slot_reserved n txn)) [
            | none ↦ none
            | some ended ↦ elim (remap_hardcoded api r) [
              | none ↦ none
              | some answer ↦ some (((answer.0, some answer.1), ended.1), ended.0)
            ]
          ]
          else some (((no_remap, some r), txn), counted)
    ]

-- `TSRemapOSResponse`: the `request_id` of its debug output. The memory gives the `int` at an
-- address, or `none` where there is none to read.
unfoldable pub os_response : (ℕ → Option ℤ) → Option ℕ → Option ℤ
os_response memory none = some (negsuc 0)
os_response memory (some zero) = some (negsuc 0)
os_response memory (some (suc n)) = memory (suc n)

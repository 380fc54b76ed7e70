-- ===== src/Http/Fetch.antt =====
-- src/proto-http.c: one request, `fetch_url` with `write_cb`, and the text of the answer, `check_json`.
use knot_service_source.Common.{
  ℕ, ◌+◌, ℤ, pos, negsuc, Bool, true, false, ◌&&◌, Option, none, some, List, [], ◌∷◌, ◌++◌, map,
  length, take, c_string, if◌then◌else◌, ◌==◌, ◌||◌,
}
use knot_service_source.Env.Messages.{Bytes}
use knot_service_source.Env.Json.{JsonType, json_array}
use knot_service_source.Env.Raw.{JsonRaw}
use knot_service_source.Http.Curl.{
  Curl, Header, auth_uuid, auth_token, accept, content_type, charsets, Request, Transfer,
}

abbrev pub empty : JsonRaw
empty = record { text = none; size = 0 }

-- The negative error numbers.
abbrev pub eperm : ℤ
eperm = negsuc 0

abbrev pub enoent : ℤ
enoent = negsuc 1

abbrev pub eio : ℤ
eio = negsuc 4

abbrev pub enomem : ℤ
enomem = negsuc 11

abbrev pub einval : ℤ
einval = negsuc 21

unfoldable pub http2errno : ℕ → ℤ
http2errno ehttp =
    if ehttp == 200 || ehttp == 201
    then pos 0
    else if ehttp == 401 || ehttp == 403
    then eperm
    else if ehttp == 404
    then enoent
    else eio

-- The bytes before `size`; none where `data` is NULL.
abbrev pub kept : JsonRaw → Bytes
kept json = elim json.text [ none ↦ [] | some d ↦ take json.size d ]

-- The result is the number of bytes taken; `memory` tells whether `realloc` succeeds.
unfoldable pub write_cb : Bytes → Bool → JsonRaw → ℕ × JsonRaw
write_cb contents false json = (0, record json { text = none })
write_cb contents true json = (
  length contents,
  record { text = some (kept json ++ contents ++ 0 ∷ []); size = json.size + length contents },
)

-- The buffer after all calls of the write function.
unfoldable pub received : List (Bytes × Bool) → JsonRaw → JsonRaw
unfolding write_cb
received [] json = json
received ((contents, memory) ∷ rest) json = received rest (write_cb contents memory json).1

-- The credentials go into buffers of their own size.
unfoldable pub auth_headers : Option Bytes → Option Bytes → List Header
auth_headers (some uuid) (some token) = auth_uuid (take 36 uuid) ∷ auth_token (take 40 token) ∷ []
auth_headers (some uuid) none = []
auth_headers none token = []

unfoldable pub json_headers : Option Bytes → List Header
json_headers none = []
json_headers (some json) = accept ∷ content_type ∷ charsets ∷ []

-- `sockfd > 0`.
unfoldable pub opensocket : ℤ → Option ℕ
opensocket (pos fd) = if fd == 0 then none else some fd
opensocket (negsuc fd) = none

-- The result of a request whose transfer is over.
unfoldable pub transfer_result : Transfer → ℤ
unfolding http2errno
transfer_result t = elim t.response_code [
  | none ↦ eio
  | some ehttp ↦ if t.performed then http2errno ehttp else eio
]

abbrev pub is_array : JsonType → Bool
is_array json_array = true
is_array _ = false

-- The characters of a text that ends with a NUL.
abbrev pub terminated : Option Bytes → Option Bytes
terminated none = none
terminated (some s) = some (c_string s)

module _ (c : Curl) where
  -- The method, in the eleven bytes of `upcase_request`.
  unfoldable pub upcase : Bytes → Bytes
  unfolding c_string
  upcase request = map c.toupper (c_string (take 11 request))

  -- `if (fetch->data) free(fetch->data)`.
  abbrev pub released : JsonRaw → c.World → c.World
  released fetch w = elim fetch.text [ none ↦ w | some d ↦ c.free d w ]

  -- The transfer with an easy handle, once `fetch` is empty.
  unfoldable pub transfer : Request → c.World → ℤ × JsonRaw × c.World
  unfolding received transfer_result
  transfer request w =
      let (t, w') = c.perform request w in (transfer_result t, received t.chunks empty, w')

  -- The arguments are those of the source, without the pointer test of `fetch`: no caller passes NULL.
  unfoldable pub fetch_url :
      ℤ
      → Bytes
      → Option Bytes
      → Option Bytes
      → Option Bytes
      → JsonRaw
      → Option Bytes
      → c.World
      → ℤ × JsonRaw × c.World
  unfolding auth_headers json_headers opensocket upcase transfer
  fetch_url sockfd action json uuid token fetch none w = (einval, fetch, w)
  fetch_url sockfd action json uuid token fetch (some request) w =
      let (ready, w') = c.easy_init w in
      if ready
      then transfer
          (record {
            opensocket = opensocket sockfd;
            custom_request = upcase request;
            url = action;
            headers = auth_headers uuid token ++ json_headers json;
            postfields = json;
          })
          (released fetch w')
      else (enomem, fetch, w')

  -- The only entry of the array; the argument is the member "devices", a NULL pointer for JSON's null.
  unfoldable pub only_entry : Option c.Json → Option (Option c.Json)
  only_entry none = none
  only_entry (some jobjarray) =
      if is_array (c.type_of jobjarray) && c.array_length jobjarray == 1
      then some (c.array_get_idx jobjarray 0)
      else none

  -- `jres`.
  unfoldable pub device_entry : Option Bytes → Option (Option c.Json)
  unfolding c_string only_entry
  device_entry json_str = elim (c.tokener_parse (terminated json_str)) [
    | none ↦ none
    | some jobj ↦ elim (c.object_get_ex jobj "devices") [
      | none ↦ none
      | some jobjarray ↦ only_entry jobjarray
    ]
  ]

  -- `realloc`, and the text with its NUL; NULL is stored where there is no memory.
  unfoldable pub store_text : Bytes → JsonRaw → c.World → ℤ × JsonRaw × c.World
  store_text jobjstr json w =
      let (memory, w') = c.realloc (length jobjstr + 1) w in
      if memory
      then (pos 0, record { text = some (jobjstr ++ 0 ∷ []); size = length jobjstr + 1 }, w')
      else (enomem, record json { text = none }, w')

  unfoldable pub check_json : Option Bytes → JsonRaw → c.World → ℤ × JsonRaw × c.World
  unfolding device_entry store_text
  check_json json_str json w = elim (device_entry json_str) [
    | none ↦ (negsuc 0, json, w)
    | some jres ↦ store_text (c.to_json_string jres) json w
  ]

-- ===== src/Http/Described.antt =====
-- src/proto-http.c: the requests that read a device, `http_signin` and `http_fetch`.
use knot_service_source.Common.{
  ℕ, ◌+◌, ◌≡◌, refl, sym, ap, subst, ◌∙◌, ◌⊎◌, ◌↔◌, inl, inr, ℤ, pos, is_neg, true, false, Option,
  none, some, [], ◌∷◌, ◌++◌, length, All, if◌then◌else◌, Bool-cases, Option-cases, arith,
}
use mathlib.Core.Option.{some-injective}
use knot_service_source.Env.Messages.{Bytes}
use knot_service_source.Http.Curl.{Curl, Request, Transfer}
use knot_service_source.Env.Raw.{JsonRaw}
use knot_service_source.Http.Fetch.{
  empty, einval, enomem, http2errno, opensocket, upcase, auth_headers, json_headers, received,
  transfer, transfer_result, fetch_url, released, device_entry, store_text, check_json,
}
use knot_service_source.Http.Driver.{
  Globals, Reply, device_path, get, checked, http_signin, http_fetch,
}
use knot_service_source.Http.Fetched.{
  DeviceText, delivered, body, received-empty, device_entry-some, DeviceText-device_entry,
  terminated-body, snoc_cancel,
}

-- libcurl ends a transfer with an error where the write function takes fewer bytes than it was given.
unfoldable pub StopsOnShortWrite : Curl → Type 0
StopsOnShortWrite c =
    (q : Request) (w : c.World)
    → (c.perform q w).0.performed ≡ true
    → All (λ ch. ch.1 ≡ true) (c.perform q w).0.chunks

-- The world once there is an easy handle and the old text of the buffer has been freed.
abbrev pub handled : (c : Curl) → JsonRaw → c.World → c.World
handled c json w = released c json (c.easy_init w).1

-- A request for a device, made in `w` into the buffer `json`, that is answered by the description `text`.
pub data Described (c : Curl) (q : Request) (json : JsonRaw) (w : c.World) : Bytes → Type 0 where
  described :
      {text : Bytes}
      → (c.easy_init w).0 ≡ true
      → (c.perform q (handled c json w)).0.performed ≡ true
      → ((c.perform q (handled c json w)).0.response_code ≡ some 200)
        ⊎ ((c.perform q (handled c json w)).0.response_code ≡ some 201)
      → DeviceText c (delivered (c.perform q (handled c json w)).0.chunks) text
      → (c.realloc (length text + 1) (c.perform q (handled c json w)).1).0 ≡ true
      → Described c q json w text

-- The request of `http_signin` and `http_fetch`.
unfoldable pub device_request : (c : Curl) → Globals → ℤ → Bytes → Bytes → Request
device_request c g sock uuid token = record {
  opensocket = opensocket sock;
  custom_request = upcase c get;
  url = device_path g.device_uri uuid;
  headers = auth_headers (some uuid) (some token) ++ json_headers none;
  postfields = none;
}

http2errno_cases :
    (n : ℕ) → ((n ≡ 200) ⊎ (n ≡ 201)) × (http2errno n ≡ pos 0) ⊎ (is_neg (http2errno n) ≡ true)
unfolding http2errno
http2errno_cases n = ground arith

pub transfer_cases :
    (t : Transfer)
    → (t.performed ≡ true)
        × ((t.response_code ≡ some 200) ⊎ (t.response_code ≡ some 201))
        × (transfer_result t ≡ pos 0)
      ⊎ (is_neg (transfer_result t) ≡ true)
unfolding transfer_result
transfer_cases t = elim (Option-cases t.response_code) [
  | inl p ↦ inr (rw p refl)
  | inr (n, p) ↦ elim (Bool-cases t.performed) [
    | inr q ↦ inr (rw (p, q) refl)
    | inl q ↦ elim (http2errno_cases n) [
      | inr h ↦ inr (rw (p, q) h)
      | inl (inl e, h) ↦ inl (q, inl (p ∙ ap some e), rw (p, q) h)
      | inl (inr e, h) ↦ inl (q, inr (p ∙ ap some e), rw (p, q) h)
    ]
  ]
]

transfer_result-found :
    (t : Transfer)
    → t.performed ≡ true
    → (t.response_code ≡ some 200) ⊎ (t.response_code ≡ some 201)
    → transfer_result t ≡ pos 0
unfolding transfer_result http2errno
transfer_result-found t p (inl q) = rw (q, p) refl
transfer_result-found t p (inr q) = rw (q, p) refl

module _ (c : Curl) where
  -- The call returns 0 and `text`.
  abbrev Found : Reply c → Bytes → Type 0
  Found r text = (r.0 ≡ pos 0) × (r.1.text ≡ some (text ++ 0 ∷ []))

  pub checked-failed :
      (err : ℤ) (json : JsonRaw) (w : c.World)
      → is_neg err ≡ true
      → checked c (err, json, w) ≡ (err, json, w)
  unfolding checked
  checked-failed err json w h = rw (h) refl

  checked-none :
      (json : JsonRaw) (w : c.World)
      → device_entry c json.text ≡ none
      → (checked c (pos 0, json, w)).0 ≡ einval
  unfolding checked check_json
  checked-none json w q = rw (checked, check_json, q) refl

  checked-full :
      (json : JsonRaw) (w : c.World) (jres : Option c.Json)
      → device_entry c json.text ≡ some jres
      → (c.realloc (length (c.to_json_string jres) + 1) w).0 ≡ false
      → (checked c (pos 0, json, w)).0 ≡ einval
  unfolding checked check_json store_text
  checked-full json w jres q m = rw (checked, check_json, q, store_text, m) refl

  checked-stored :
      (json : JsonRaw) (w : c.World) (jres : Option c.Json)
      → device_entry c json.text ≡ some jres
      → (c.realloc (length (c.to_json_string jres) + 1) w).0 ≡ true
      → Found (checked c (pos 0, json, w)) (c.to_json_string jres)
  unfolding checked check_json store_text
  checked-stored json w jres q m = (
    rw (checked, check_json, q, store_text, m) refl,
    rw (checked, check_json, q, store_text, m) refl,
  )

  checked-Found :
      (json : JsonRaw) (w : c.World) (text : Bytes)
      → Found (checked c (pos 0, json, w)) text
      → (jres : Option c.Json) × (device_entry c json.text ≡ some jres)
        × (text ≡ c.to_json_string jres)
        × ((c.realloc (length text + 1) w).0 ≡ true)
  checked-Found json w text (z, p) = elim (Option-cases (device_entry c json.text)) [
    | inl q ↦ ground (arith, checked-none json w q)
    | inr (jres, q) ↦ elim (Bool-cases (c.realloc (length (c.to_json_string jres) + 1) w).0) [
      | inr m ↦ ground (arith, checked-full json w jres q m)
      | inl m ↦
          let e =
            snoc_cancel text (c.to_json_string jres)
              (some-injective _ _ (sym p ∙ (checked-stored json w jres q m).1)) in
          (jres, q, e, subst (λ t. (c.realloc (length t + 1) w).0 ≡ true) (sym e) m)
    ]
  ]

  -- A transfer that succeeds, with the buffer written out.
  abbrev answered : Request → c.World → Reply c
  answered q w = (pos 0, body (c.perform q w).0.chunks, (c.perform q w).1)

  module _ (stops : StopsOnShortWrite c) where
    pub transfer-performed :
        (q : Request) (w : c.World)
        → (c.perform q w).0.performed ≡ true
        → transfer c q w
          ≡ (transfer_result (c.perform q w).0, body (c.perform q w).0.chunks, (c.perform q w).1)
    unfolding transfer StopsOnShortWrite
    transfer-performed q w p = rw (received-empty (c.perform q w).0.chunks (stops q w p)) refl

    transfer-answered :
        (q : Request) (w : c.World)
        → (c.perform q w).0.performed ≡ true
        → transfer_result (c.perform q w).0 ≡ pos 0
        → transfer c q w ≡ answered q w
    transfer-answered q w p z = transfer-performed q w p ∙ rw (z) refl

    transfer-Described :
        (q : Request) (json : JsonRaw) (w : c.World) (text : Bytes)
        → (c.easy_init w).0 ≡ true
        → Found (checked c (transfer c q (handled c json w))) text
        → Described c q json w text
    unfolding transfer
    transfer-Described q json w text ready f =
        let w1 = handled c json w in
        let (t, w2) = c.perform q w1 in
        elim (transfer_cases t) [
          | inr bad ↦ absurd (failed_transfer t w2 bad f)
          | inl (p, code, z) ↦
              let (jres, entry, e, memory) =
                checked-Found (body t.chunks) w2 text
                  (subst (λ r. Found (checked c r) text) (transfer-answered q w1 p z) f) in
              let d =
                subst (λ o. DeviceText c o (c.to_json_string jres)) (terminated-body c t.chunks)
                  (device_entry-some c (body t.chunks).text jres entry) in
              described ready p code (subst (DeviceText c (delivered t.chunks)) (sym e) d) memory
        ]
      where
        failed_transfer :
            (t : Transfer) (w2 : c.World)
            → is_neg (transfer_result t) ≡ true
            → Found (checked c (transfer_result t, received t.chunks empty, w2)) text
            → ⊥
        failed_transfer t w2 bad f =
            ground (arith, checked-failed (transfer_result t) (received t.chunks empty) w2 bad)

    Described-transfer :
        (q : Request) (json : JsonRaw) (w : c.World) (text : Bytes)
        → Described c q json w text
        → Found (checked c (transfer c q (handled c json w))) text
    Described-transfer q json w text (described ready p code found memory) =
        let w1 = handled c json w in
        let (t, w2) = c.perform q w1 in
        let (jres, entry, e) =
          DeviceText-device_entry c (body t.chunks).text text
            (subst (λ o. DeviceText c o text) (sym (terminated-body c t.chunks)) found) in
        let stored =
          checked-stored (body t.chunks) w2 jres entry
            (subst (λ x. (c.realloc (length x + 1) w2).0 ≡ true) e memory) in
        subst (λ r. Found (checked c r) text)
          (sym (transfer-answered q w1 p (transfer_result-found t p code)))
          (subst (Found (checked c (answered q w1))) (sym e) stored)

  unfoldable pub read_device : (q : Request) (w : c.World) (json : JsonRaw) → Reply c
  read_device q w json =
      let (ready, w') = c.easy_init w in
      checked c (if ready then transfer c q (released c json w') else (enomem, json, w'))

  pub read_device-ready :
      (q : Request) (w : c.World) (json : JsonRaw)
      → (c.easy_init w).0 ≡ true
      → read_device q w json ≡ checked c (transfer c q (handled c json w))
  unfolding read_device
  read_device-ready q w json p = rw (p) refl

  read_device-unready :
      (q : Request) (w : c.World) (json : JsonRaw)
      → (c.easy_init w).0 ≡ false
      → (read_device q w json).0 ≡ enomem
  unfolding read_device checked
  read_device-unready q w json p = rw (p, checked) refl

  Described-ready :
      (q : Request) (json : JsonRaw) (w : c.World) (text : Bytes)
      → Described c q json w text
      → (c.easy_init w).0 ≡ true
  Described-ready q json w text (described ready p code found memory) = ready

  read_device_iff :
      StopsOnShortWrite c
      → (q : Request) (w : c.World) (json : JsonRaw) (text : Bytes)
      → Found (read_device q w json) text ↔ Described c q json w text
  read_device_iff stops q w json text = elim (Bool-cases (c.easy_init w).0) [
    | inl p ↦
        let e = read_device-ready q w json p in
        (
          λ f. transfer-Described stops q json w text p (subst (λ r. Found r text) e f),
          λ d. subst (λ r. Found r text) (sym e) (Described-transfer stops q json w text d),
        )
    | inr p ↦ (
      λ f. ground (arith, read_device-unready q w json p),
      λ d. ground (arith, Described-ready q json w text d),
    )
  ]

-- Where a short write ends a transfer with an error, `http_signin` and `http_fetch` return 0 with the
-- text `text` exactly where there is an easy handle, the transfer of their request, which begins once the old
-- text of the buffer has been freed, succeeds with the
-- code 200 or 201, what it delivered up to the first NUL is JSON whose member "devices" is an array
-- of one entry, `text` prints that entry, and there is memory for it.
pub http_signin-Described :
    (c : Curl) (g : Globals)
    → StopsOnShortWrite c
    → (sock : ℤ) (uuid token : Bytes) (json : JsonRaw) (w : c.World) (text : Bytes)
    → (((http_signin c g sock uuid token json w).0 ≡ pos 0)
          × ((http_signin c g sock uuid token json w).1.text ≡ some (text ++ 0 ∷ []))
        ↔ Described c (device_request c g sock uuid token) json w text)
      × (((http_fetch c g sock uuid token json w).0 ≡ pos 0)
            × ((http_fetch c g sock uuid token json w).1.text ≡ some (text ++ 0 ∷ []))
          ↔ Described c (device_request c g sock uuid token) json w text)
unfolding http_signin http_fetch fetch_url device_request read_device
http_signin-Described c g stops sock uuid token json w text =
    let read = read_device_iff c stops (device_request c g sock uuid token) w json text in
    (read, read)

-- ===== src/Http/Fetched.antt =====
-- src/proto-http.c: what is read of an answer.
use knot_service_source.Common.{
  ◌+◌, ◌≡◌, refl, sym, ap, subst, ◌∙◌, inl, inr, Bool, true, Option, none, some, List, [], ◌∷◌,
  ◌++◌, length, take, All, c_string, Option-cases, arith,
}
use mathlib.Core.List.{append_assoc, append-nil}
use knot_service_source.Env.Messages.{Bytes}
use knot_service_source.Env.Json.{JsonType, json_array}
use knot_service_source.Http.Curl.{Curl}
use knot_service_source.Env.Raw.{JsonRaw}
use knot_service_source.Http.Fetch.{
  empty, write_cb, received, only_entry, device_entry, is_array, terminated,
}

pub joined : List (Bytes × Bool) → Bytes
joined [] = []
joined ((contents, memory) ∷ rest) = contents ++ joined rest

take_all : (d : Bytes) (r : Bytes) → take (length d) (d ++ r) ≡ d
take_all [] r = refl
take_all (x ∷ d) r = ap (λ l. x ∷ l) (take_all d r)

length-++ : (d r : Bytes) → length (d ++ r) ≡ length d + length r
length-++ [] r = omega arith
length-++ (x ∷ d) r = omega (arith, length-++ d r)

abbrev pub holding : Bytes → JsonRaw
holding d = record { text = some (d ++ 0 ∷ []); size = length d }

write_cb-holding :
    (contents d : Bytes) → (write_cb contents true (holding d)).1 ≡ holding (d ++ contents)
unfolding write_cb
write_cb-holding contents d = rw (take_all d (0 ∷ []), length-++ d contents) refl

received-holding :
    (chunks : List (Bytes × Bool)) (d : Bytes)
    → All (λ ch. ch.1 ≡ true) chunks
    → received chunks (holding d) ≡ holding (d ++ joined chunks)
unfolding received joined
received-holding [] d h = rw (append-nil d) refl
received-holding ((contents, memory) ∷ rest) d (m, ms) =
    rw (m, received, write_cb-holding contents d, received-holding rest (d ++ contents) ms)
      (ap holding (append_assoc d contents (joined rest)))

abbrev pub body : List (Bytes × Bool) → JsonRaw
body [] = empty
body (chunk ∷ rest) = holding (joined (chunk ∷ rest))

write_cb-empty : (contents : Bytes) → (write_cb contents true empty).1 ≡ holding contents
unfolding write_cb
write_cb-empty contents =
    ap (λ n. record { text = some (contents ++ 0 ∷ []); size = n }) (omega arith)

-- The text that the calls of the write function leave, where `realloc` never fails.
pub received-empty :
    (chunks : List (Bytes × Bool))
    → All (λ ch. ch.1 ≡ true) chunks
    → received chunks empty ≡ body chunks
unfolding received joined
received-empty [] h = refl
received-empty ((contents, memory) ∷ rest) (m, ms) =
    rw (m, received, write_cb-empty contents) (received-holding rest contents ms)

pub snoc_cancel : (a b : Bytes) → a ++ 0 ∷ [] ≡ b ++ 0 ∷ [] → a ≡ b
snoc_cancel [] [] h = refl
snoc_cancel [] (y ∷ b) h = absurd (omega (arith, ap length h, length-++ b (0 ∷ [])))
snoc_cancel (x ∷ a) [] h = absurd (omega (arith, ap length h, length-++ a (0 ∷ [])))
snoc_cancel (x ∷ a) (y ∷ b) h = ground (arith, snoc_cancel a b)

c_string-++ : (d : Bytes) → c_string (d ++ 0 ∷ []) ≡ c_string d
unfolding c_string
c_string-++ [] = refl
c_string-++ (x ∷ d) = rw (c_string-++ d) refl

-- The text of the only device of an answer: JSON whose member "devices" is an array of one entry.
pub data DeviceText (c : Curl) : Option Bytes → Bytes → Type 0 where
  one_device :
      {answer : Option Bytes} {jobj jobjarray : c.Json}
      → c.tokener_parse answer ≡ some jobj
      → c.object_get_ex jobj "devices" ≡ some (some jobjarray)
      → c.type_of jobjarray ≡ json_array
      → c.array_length jobjarray ≡ 1
      → DeviceText c answer (c.to_json_string (c.array_get_idx jobjarray 0))

-- What libcurl delivers, up to the first NUL; nothing without a call of the write function.
pub delivered : List (Bytes × Bool) → Option Bytes
delivered [] = none
delivered (chunk ∷ rest) = some (c_string (joined (chunk ∷ rest)))

array_cases : (t : JsonType) → is_array t ≡ true → t ≡ json_array
array_cases t h = ground arith

module _ (c : Curl) where
  only_entry-some :
      (o : Option c.Json) (jres : Option c.Json)
      → only_entry c o ≡ some jres
      → (a : c.Json) × (o ≡ some a)
        × (c.type_of a ≡ json_array)
        × (c.array_length a ≡ 1)
        × (jres ≡ c.array_get_idx a 0)
  unfolding only_entry
  only_entry-some none jres h = ground arith
  only_entry-some (some a) jres h =
      (a, refl, array_cases (c.type_of a) (ground arith), ground arith, ground arith)

  only_entry-array :
      (a : c.Json)
      → c.type_of a ≡ json_array
      → c.array_length a ≡ 1
      → only_entry c (some a) ≡ some (c.array_get_idx a 0)
  unfolding only_entry
  only_entry-array a p q = rw (p, q) refl

  pub device_entry-some :
      (s : Option Bytes) (jres : Option c.Json)
      → device_entry c s ≡ some jres
      → DeviceText c (terminated s) (c.to_json_string jres)
  unfolding device_entry
  device_entry-some s jres h = elim (Option-cases (c.tokener_parse (terminated s))) [
    | inl p ↦ ground arith
    | inr (jobj, p) ↦ elim (Option-cases (c.object_get_ex jobj "devices")) [
      | inl q ↦ ground arith
      | inr (o, q) ↦
          let (a, found, array, single, entry) = only_entry-some o jres (ground arith) in
          subst (λ j. DeviceText c (terminated s) (c.to_json_string j)) (sym entry)
            (one_device p (q ∙ ap some found) array single)
    ]
  ]

  pub DeviceText-device_entry :
      (s : Option Bytes) (text : Bytes)
      → DeviceText c (terminated s) text
      → (jres : Option c.Json) × (device_entry c s ≡ some jres) × (text ≡ c.to_json_string jres)
  unfolding device_entry
  DeviceText-device_entry s text (one_device {jobj = jobj} {jobjarray = a} p q array single) =
      (c.array_get_idx a 0, rw (device_entry, p, q) (only_entry-array a array single), refl)

  pub terminated-body :
      (chunks : List (Bytes × Bool)) → terminated (body chunks).text ≡ delivered chunks
  unfolding delivered
  terminated-body [] = refl
  terminated-body (chunk ∷ rest) = ap some (c_string-++ (joined (chunk ∷ rest)))

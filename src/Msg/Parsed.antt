-- ===== src/Msg/Parsed.antt =====
-- src/msg.c: the lists that the parsers of the cloud's JSON return.
use knot_service_source.Common.{
  ℕ, suc, zero, ◌+◌, ◌-◌, ◌<◌, ◌≡◌, ◌≢◌, refl, ap, subst, Option, none, some, List, [], ◌∷◌, ◌++◌,
  arith, All, length, take, length-take, Option-cases, inl, inr,
}
use knot_service_source.Common.Queue.{entries}
use knot_service_source.Env.{Env, Response}
use knot_service_source.Env.Messages.{Bytes, MsgSchema}
use knot_service_source.Msg.State.{Config}
use knot_service_source.Msg.Parse.{
  items, items_from, schema_entry, schema_loop, schema_array, null_if_empty, parse_device_schema,
  all_entries, config_entry, parse_device_config, member_array, as_array, as_int, as_string, get_ex,
  ◌>>=◌,
}

module _ (e : Env) where
  abbrev pub NameFits : MsgSchema → Type 0
  NameFits schema = length schema.name < e.schema_name_len

  length-items_from : (array : e.Json) (i n : ℕ) → length (items_from e array i n) ≡ n
  unfolding items_from
  length-items_from array i zero = refl
  length-items_from array i (suc n) = ap suc (length-items_from array (i + 1) n)

  -- Where a list is read whole, each entry of the array gave the entry of the list at its place.
  abbrev pub Pairwise :
      {A : Type 0} → (Option e.Json → Option A) → List (Option e.Json) → List A → Type 0
  Pairwise parse [] [] = Unit
  Pairwise parse (j ∷ js) (x ∷ xs) = (parse j ≡ some x) × Pairwise parse js xs
  Pairwise parse [] (x ∷ xs) = ⊥
  Pairwise parse (j ∷ js) [] = ⊥

  none-some : {A : Type 0} {x : A} → none ≡ some x → ⊥
  none-some p = absurd (cc)

  some_injective : {A : Type 0} (x y : A) → some x ≡ some y → x ≡ y
  some_injective x y p = cc

  all_entries-Pairwise :
      {A : Type 0} (parse : Option e.Json → Option A) (js : List (Option e.Json)) (xs : List A)
      → all_entries e parse js ≡ some xs
      → Pairwise parse js xs
  unfolding all_entries
  all_entries-Pairwise parse [] [] h = tt
  all_entries-Pairwise parse [] (x ∷ xs) h = absurd (cc)
  all_entries-Pairwise parse (j ∷ js) xs h = elim (Option-cases (parse j)) [
    | inl p ↦ absurd (cc)
    | inr (x, p) ↦ elim (Option-cases (all_entries e parse js)) [
      | inl q ↦ absurd (cc)
      | inr (ys, q) ↦
          subst (Pairwise parse (j ∷ js)) (some_injective (x ∷ ys) xs (cc))
            (p, all_entries-Pairwise parse js ys q)
    ]
  ]

  -- `parse_device_config` is all or nothing: where it returns a list, the text has an array "config",
  -- and the list is that array read entry by entry, none left out. One malformed entry, a NULL one
  -- included, makes the whole list NULL.
  pub parse_device_config-Pairwise :
      (json_str : Response) (configs : List (Config e.Val))
      → parse_device_config e json_str ≡ some configs
      → (array : e.Json) × (member_array e json_str "config" ≡ some array)
        × Pairwise (config_entry e) (items e array) configs
  unfolding parse_device_config
  parse_device_config-Pairwise json_str configs h =
      elim (Option-cases (member_array e json_str "config")) [
        | inl p ↦ absurd (none-some (rw (p, parse_device_config) at h))
        | inr (array, p) ↦ (
          array,
          p,
          all_entries-Pairwise (config_entry e) (items e array) configs
              (rw (p, parse_device_config) at h),
        )
      ]

  -- A predicate of the value, where there is one.
  unfoldable IfSome : {A : Type 0} → (A → Type 0) → Option A → Type 0
  IfSome P none = Unit
  IfSome P (some x) = P x

  bind-IfSome :
      {A B : Type 0} (P : B → Type 0) (m : Option A) (f : A → Option B)
      → ((a : A) → IfSome P (f a))
      → IfSome P (m >>= f)
  unfolding IfSome
  bind-IfSome P none f h = tt
  bind-IfSome P (some a) f h = h a

  schema_entry-NameFits :
      (j : Option e.Json) → 0 < e.schema_name_len → IfSome NameFits (schema_entry e j)
  unfolding schema_entry IfSome
  schema_entry-NameFits j n = bind-IfSome NameFits (get_ex e j "sensor_id") _ λ o1.
      bind-IfSome NameFits (as_int e o1) _ λ _.
        bind-IfSome NameFits (get_ex e j "value_type") _ λ o2.
          bind-IfSome NameFits (as_int e o2) _ λ _. bind-IfSome NameFits (get_ex e j "unit") _ λ o3.
            bind-IfSome NameFits (as_int e o3) _ λ _.
              bind-IfSome NameFits (get_ex e j "type_id") _ λ o4.
                bind-IfSome NameFits (as_int e o4) _ λ _.
                  bind-IfSome NameFits (get_ex e j "name") _
                    λ o5. bind-IfSome NameFits (as_string e o5) _ λ name. name_fits name
    where
      name_fits : (name : Bytes) → length (take (e.schema_name_len - 1) name) < e.schema_name_len
      name_fits name = omega (arith, n, length-take (e.schema_name_len - 1) name)

  All-snoc :
      (list : List MsgSchema) (schema : MsgSchema)
      → All NameFits list
      → NameFits schema
      → All NameFits (list ++ schema ∷ [])
  All-snoc [] schema h k = (k, tt)
  All-snoc (x ∷ xs) schema h k = (h.0, All-snoc xs schema h.1 k)

  schema_loop-All :
      (js : List (Option e.Json)) (list : List MsgSchema)
      → 0 < e.schema_name_len
      → All NameFits list
      → All NameFits (schema_loop e list js)
  unfolding schema_loop IfSome
  schema_loop-All [] list n h = h
  schema_loop-All (j ∷ js) list n h = elim (Option-cases (schema_entry e j)) [
    | inl p ↦ rw (p, schema_loop) h
    | inr (schema, p) ↦
        rw (p, schema_loop)
          (schema_loop-All js (list ++ schema ∷ []) n
            (All-snoc list schema h (subst (IfSome NameFits) p (schema_entry-NameFits j n))))
  ]

  null_if_empty-NameFits :
      (list : List MsgSchema)
      → All NameFits list
      → All NameFits (entries (null_if_empty e list)) × (null_if_empty e list ≢ some [])
  null_if_empty-NameFits [] h = (tt, λ p. absurd (cc))
  null_if_empty-NameFits (x ∷ xs) h = (h, λ p. absurd (cc))

  schema_array-NameFits :
      (value : Option (Option e.Json)) → 0 < e.schema_name_len → All NameFits (schema_array e value)
  schema_array-NameFits none n = tt
  schema_array-NameFits (some value) n = elim (Option-cases (as_array e value)) [
    | inl p ↦ rw (p, All) tt
    | inr (array, p) ↦ rw (p, All) (schema_loop-All (items e array) [] n tt)
  ]

  -- Every sensor name that `parse_device_schema` reads fits the buffer of `schema_name_len` bytes with
  -- its NUL, and the list is never empty: it is NULL, or has a sensor.
  parse_device_schema-NameFits :
      (json_str : Response)
      → 0 < e.schema_name_len
      → All NameFits (entries (parse_device_schema e json_str))
        × (parse_device_schema e json_str ≢ some [])
  unfolding parse_device_schema
  parse_device_schema-NameFits json_str n = elim (Option-cases (e.tokener_parse json_str)) [
    | inl p ↦ rw (p, parse_device_schema) (tt, λ q. absurd (cc))
    | inr (jobj, p) ↦
        rw (p, parse_device_schema)
          (null_if_empty-NameFits (schema_array e (e.object_get_ex jobj "schema"))
            (schema_array-NameFits (e.object_get_ex jobj "schema") n))
  ]

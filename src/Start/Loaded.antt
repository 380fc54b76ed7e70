-- ===== src/Start/Loaded.antt =====
-- src/settings.c: where the settings come from.
use knot_service_source.Common.{
  ℕ, ◌≡◌, ◌≢◌, ◌↔◌, refl, ap, sym, subst, ◌∙◌, inl, inr, Option, none, some, String, Option-cases,
  Bool-cases, ◌==◌, arith,
}
use mathlib.Core.Option.{some-injective}
use knot_service_source.Env.Messages.{Bytes}
use knot_service_source.Start.Settings.{
  Settings, Files, get, text_of, int_of, get_as_string, get_as_int, host_setting, port_setting,
  with_port, with_uuid, cloud_settings, parse_config_file, parse_named, settings_parse,
}

-- A chain of tests that has a result has passed each of them.
bind_some :
    {A B : Type 0} (o : Option A) (k : A → Option B) (r : B)
    → elim o [ none ↦ none | some a ↦ k a ] ≡ some r
    → (a : A) × (o ≡ some a) × (k a ≡ some r)
bind_some none k r h = ground arith
bind_some (some a) k r h = (a, refl, h)

module _ (f : Files) where
  -- Where a host comes from: the command line, or the file, which may say null.
  pub data Host (cloud : Option f.Json) : Option Bytes → Option Bytes → Type 0 where
    given : {host : Bytes} → Host cloud (some host) (some host)
    in_file :
        {obj : Option f.Json}
        → get f cloud "serverName" ≡ some obj
        → Host cloud none (text_of f obj)

  -- Where a port comes from.
  pub data Port (cloud : Option f.Json) : ℕ → ℕ → Type 0 where
    given : {port : ℕ} → port ≢ 0 → Port cloud port port
    in_file : {obj : Option f.Json} → get f cloud "port" ≡ some obj → Port cloud 0 (int_of f obj)

  -- The settings of a command line and of the file that it names.
  pub data Loaded : Settings → Settings → Type 0 where
    loaded :
        {settings : Settings} {config_path : Bytes} {root obj : f.Json} {cloud : Option f.Json}
        {host : Option Bytes} {port : ℕ}
        → settings.config_path ≡ some config_path
        → f.object_from_file config_path ≡ some root
        → f.object_get_ex root "cloud" ≡ some cloud
        → get f cloud "uuid" ≡ some (some obj)
        → Host cloud settings.host host
        → Port cloud settings.port port
        → Loaded settings
            (record settings { uuid = some (f.get_string obj); host = host; port = port })

  get_as_string-found :
      (root : Option f.Json) (name : String) (v : Option Bytes)
      → get_as_string f root name ≡ some v
      → (obj : Option f.Json) × (get f root name ≡ some obj) × (v ≡ text_of f obj)
  unfolding get_as_string
  get_as_string-found root name v h = elim (Option-cases (get f root name)) [
    | inl p ↦ ground arith
    | inr (obj, p) ↦ (obj, p, ground arith)
  ]

  host_setting-Host :
      (cloud : Option f.Json) (host v : Option Bytes)
      → host_setting f cloud host ≡ some v
      → Host cloud host v
  unfolding host_setting
  host_setting-Host cloud none v h =
      let (obj, p, e) = get_as_string-found cloud "serverName" v h in
      subst (Host cloud none) (sym e) (in_file p)
  host_setting-Host cloud (some host) v h =
      subst (Host cloud (some host)) (some-injective (some host) v h) given

  Host-host_setting :
      (cloud : Option f.Json) (host v : Option Bytes)
      → Host cloud host v
      → host_setting f cloud host ≡ some v
  unfolding host_setting get_as_string
  Host-host_setting cloud (some host) _ given = refl
  Host-host_setting cloud none _ (in_file p) = rw (get_as_string, p) refl

  port_setting-Port :
      (cloud : Option f.Json) (port v : ℕ) → port_setting f cloud port ≡ some v → Port cloud port v
  unfolding port_setting get_as_int
  port_setting-Port cloud port v h = elim (Bool-cases (port == 0)) [
    | inr q ↦ subst (Port cloud port) (ground arith) (Port.given {port = port} (ground arith))
    | inl q ↦ elim (Option-cases (get f cloud "port")) [
      | inl p ↦ ground arith
      | inr (obj, p) ↦
          subst (λ x. Port cloud x v) (ground arith)
            (subst (Port cloud 0) (ground arith) (Port.in_file p))
    ]
  ]

  Port-port_setting :
      (cloud : Option f.Json) (port v : ℕ) → Port cloud port v → port_setting f cloud port ≡ some v
  unfolding port_setting get_as_int
  Port-port_setting cloud port _ (Port.given ne) = ground arith
  Port-port_setting cloud _ _ (Port.in_file p) = rw (get_as_int, p) refl

  with_uuid-Loaded :
      (settings result : Settings) (config_path : Bytes) (root : f.Json) (cloud : Option f.Json)
      (uuid : Option Bytes)
      → settings.config_path ≡ some config_path
      → f.object_from_file config_path ≡ some root
      → f.object_get_ex root "cloud" ≡ some cloud
      → get_as_string f cloud "uuid" ≡ some uuid
      → with_uuid f cloud settings uuid ≡ some result
      → Loaded settings result
  unfolding with_uuid
  with_uuid-Loaded settings result path root cloud none p q r u h = ground arith
  with_uuid-Loaded settings result path root cloud (some uuid) p q r u h =
      let (host, a, h1) =
        bind_some (host_setting f cloud settings.host)
          (λ host. elim (port_setting f cloud settings.port) [
            | none ↦ none
            | some port ↦ some (with_port f settings uuid host port)
          ])
          result h in
      let (port, b, h2) =
        bind_some (port_setting f cloud settings.port)
          (λ port. some (with_port f settings uuid host port)) result h1 in
      let (obj, g, e) = get_as_string-found cloud "uuid" (some uuid) u in
      found_uuid obj g e host port (host_setting-Host cloud settings.host host a)
        (port_setting-Port cloud settings.port port b) (some-injective _ _ h2)
    where
      found_uuid :
          (obj : Option f.Json)
          → get f cloud "uuid" ≡ some obj
          → some uuid ≡ text_of f obj
          → (host : Option Bytes) (port : ℕ) → Host cloud settings.host host
          → Port cloud settings.port port
          → with_port f settings uuid host port ≡ result
          → Loaded settings result
      found_uuid none g e host port a b h = ground arith
      found_uuid (some obj) g e host port a b h =
          subst (Loaded settings)
            (ap (λ u. with_port f settings u host port) (some-injective _ _ (sym e)) ∙ h)
            (loaded p q r g a b)

  named_some :
      (o : Option Bytes) (settings result : Settings)
      → parse_named f o settings ≡ some result
      → (path : Bytes) × (o ≡ some path) × (parse_config_file f path settings ≡ some result)
  unfolding parse_named
  named_some none settings result h = ground arith
  named_some (some path) settings result h = (path, refl, h)

  settings_parse_sound :
      (settings result : Settings)
      → settings_parse f (some settings) ≡ some result
      → Loaded settings result
  unfolding settings_parse parse_config_file cloud_settings
  settings_parse_sound settings result h0 =
      let (path, p, h1) = named_some settings.config_path settings result h0 in
      let (root, q, h2) =
        bind_some (f.object_from_file path)
          (λ root. elim (f.object_get_ex root "cloud") [
            | none ↦ none
            | some c ↦ cloud_settings f c settings
          ])
          result h1 in
      let (cloud, r, h3) =
        bind_some (f.object_get_ex root "cloud") (λ c. cloud_settings f c settings) result h2 in
      let (uuid, u, h4) =
        bind_some (get_as_string f cloud "uuid") (with_uuid f cloud settings) result h3 in
      with_uuid-Loaded settings result path root cloud uuid p q r u h4

  Loaded-settings_parse :
      (settings result : Settings)
      → Loaded settings result
      → settings_parse f (some settings) ≡ some result
  unfolding settings_parse parse_named parse_config_file cloud_settings get_as_string with_uuid
  Loaded-settings_parse settings _
        (loaded {config_path = path} {cloud = cloud} {host = host} {port = port} p q r u a b) =
      ap (λ o. parse_named f o settings) p
      ∙ rw
          (
            parse_config_file,
            q,
            r,
            cloud_settings,
            get_as_string,
            u,
            with_uuid,
            Host-host_setting cloud settings.host host a,
            Port-port_setting cloud settings.port port b,
          )
          refl

  -- The settings are those of the command line and of the file that it names exactly where the file can be
  -- read, has a cloud with a text for the UUID, and the host and the port are given by the command line,
  -- a port that is not 0, or else by the file, where the host may be null.
  pub settings_parse-Loaded :
      (settings result : Settings)
      → (settings_parse f (some settings) ≡ some result) ↔ Loaded settings result
  settings_parse-Loaded settings result =
      (settings_parse_sound settings result, Loaded-settings_parse settings result)

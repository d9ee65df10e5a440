-- ===== src/Config.antt =====
-- The configuration of the daemon: `CliArgs`, `DocxConfig` and its `TryFrom` in
-- crates/bin/docx-mcpd/src/config.rs, and the checks of `main` before it starts in
-- crates/bin/docx-mcpd/src/main.rs. `clap` fills `CliArgs`; times are in seconds.
pub mod Accepts
use docx_mcp.Base.{
  ℕ, Bool, true, false, ◌||◌, ◌&&◌, not, Option, none, some, ◌≡◌, ◌≢◌, refl, sym, ◌∙◌, arith,
  if◌then◌else◌, ◌==◌, nat_eq, eq_iff, subst, ◌⊎◌, is_empty, is_some, is_none, unwrap_or,
  Bool-cases, Option-cases, inl, inr,
}
use docx_mcp.Text.{Text, codes, trim}

-- `SocketAddr`: the address and the port.
abbrev pub SocketAddr : Type 0
SocketAddr = Text × ℕ

pub record CliArgs : Type 0 where
  pub db_namespace : Text
  pub registry_ttl_secs : ℕ
  pub registry_sweep_secs : Option ℕ
  pub registry_health_check_secs : ℕ
  pub max_entries : Option ℕ
  pub enable_stdio : Bool
  pub mcp_serve : Bool
  pub ingest_serve : Bool
  pub mcp_http_addr : SocketAddr
  pub ingest_addr : SocketAddr
  pub ingest_timeout_secs : ℕ
  pub ingest_max_body_bytes : ℕ
  pub db_in_memory : Bool
  pub db_uri : Option Text
  pub db_username : Option Text
  pub db_password : Option Text
  pub test_mode : Bool

pub record DocxConfig : Type 0 where
  pub db_namespace : Text
  pub registry_ttl : Option ℕ
  pub sweep_interval : ℕ
  pub max_entries : Option ℕ
  pub health_check_after : ℕ
  pub enable_stdio : Bool
  pub mcp_serve : Bool
  pub ingest_serve : Bool
  pub mcp_http_addr : SocketAddr
  pub ingest_addr : SocketAddr
  pub ingest_timeout : ℕ
  pub ingest_max_body_bytes : ℕ
  pub db_in_memory : Bool
  pub db_uri : Option Text
  pub db_username : Option Text
  pub db_password : Option Text
  pub test_mode : Bool

pub data ConfigError : Type 0 where
  missing_setting : Text → ConfigError
  invalid_setting : Text → Text → ConfigError

pub data ConfigResult : Type 0 where
  config : DocxConfig → ConfigResult
  fails : ConfigError → ConfigResult

-- `.filter(|value| !value.trim().is_empty())`
unfoldable pub filter_blank : Option Text → Option Text
filter_blank none = none
filter_blank (some value) = if is_empty (trim value) then none else some value

-- `args.db_in_memory || db_uri.is_none()`
unfoldable pub in_memory : CliArgs → Bool
unfolding filter_blank
in_memory args = args.db_in_memory || is_none (filter_blank args.db_uri)

unfoldable pub from_args : CliArgs → DocxConfig
unfolding in_memory
from_args args = record {
  db_namespace = args.db_namespace;
  registry_ttl = if args.registry_ttl_secs == 0 then none else some args.registry_ttl_secs;
  sweep_interval = unwrap_or args.registry_sweep_secs args.registry_ttl_secs;
  max_entries = args.max_entries;
  health_check_after = args.registry_health_check_secs;
  enable_stdio = args.enable_stdio;
  mcp_serve = args.mcp_serve;
  ingest_serve = args.ingest_serve;
  mcp_http_addr = args.mcp_http_addr;
  ingest_addr = args.ingest_addr;
  ingest_timeout = args.ingest_timeout_secs;
  ingest_max_body_bytes = args.ingest_max_body_bytes;
  db_in_memory = in_memory args;
  db_uri = filter_blank args.db_uri;
  db_username = filter_blank args.db_username;
  db_password = filter_blank args.db_password;
  test_mode = args.test_mode;
}

-- The settings that a database outside of memory needs.
unfoldable pub missing : CliArgs → Option ConfigError
unfolding in_memory
missing args =
    if not (in_memory args)
    then if is_none (filter_blank args.db_uri)
      then some (missing_setting (codes "DOCX_DB_URI"))
      else if is_none (filter_blank args.db_username)
      then some (missing_setting (codes "DOCX_DB_USERNAME"))
      else if is_none (filter_blank args.db_password)
      then some (missing_setting (codes "DOCX_DB_PASSWORD"))
      else none
    else none

unfoldable pub try_from : CliArgs → ConfigResult
unfolding missing from_args
try_from args = elim (missing args) [
  | some e ↦ fails e
  | none ↦
      if is_empty (trim args.db_namespace)
      then fails (invalid_setting (codes "DOCX_DB_NAMESPACE") args.db_namespace)
      else config (from_args args)
]

pub data Start : Type 0 where
  no_mcp_in_memory no_server : Start
  starts : Start

-- The two checks at the top of `main`.
unfoldable pub check_start : DocxConfig → Start
check_start c =
    if not c.mcp_serve && c.db_in_memory && not c.test_mode
    then no_mcp_in_memory
    else if not c.enable_stdio && not c.mcp_serve && not c.ingest_serve
    then no_server
    else starts

-- The error for a missing DOCX_DB_URI is unreachable: without one the database is in memory.
pub try_from-ne-db_uri :
    (args : CliArgs) → try_from args ≢ fails (missing_setting (codes "DOCX_DB_URI"))
unfolding try_from missing in_memory
try_from-ne-db_uri args e = ground arith

config_not_fails : {c : DocxConfig} {e : ConfigError} → config c ≢ fails e
config_not_fails p = ground (arith, p)

config_injective : {c d : DocxConfig} → config c ≡ config d → c ≡ d
config_injective p = ground (arith, p)

some_unless_none : {A : Type 0} (o : Option A) → is_none o ≡ false → is_some o ≡ true
some_unless_none none h = sym h
some_unless_none (some a) h = refl

none_unless_some : {A : Type 0} (o : Option A) → is_some o ≡ true → is_none o ≡ false
none_unless_some none h = sym h
none_unless_some (some a) h = refl

uri_given : (args : CliArgs) → in_memory args ≡ false → is_none (filter_blank args.db_uri) ≡ false
unfolding in_memory
uri_given args out = ground arith

stops_on_missing :
    (args : CliArgs) (x : ConfigError) → missing args ≡ some x → try_from args ≡ fails x
unfolding try_from
stops_on_missing args x m = rw (m, try_from) refl

stops_on_blank :
    (args : CliArgs)
    → missing args ≡ none
    → is_empty (trim args.db_namespace) ≡ true
    → try_from args ≡ fails (invalid_setting (codes "DOCX_DB_NAMESPACE") args.db_namespace)
unfolding try_from
stops_on_blank args m blank = rw (m, try_from, blank) refl

pub goes_on :
    (args : CliArgs)
    → missing args ≡ none
    → is_empty (trim args.db_namespace) ≡ false
    → try_from args ≡ config (from_args args)
unfolding try_from
goes_on args m full = rw (m, try_from, full) refl

pub nothing_missing :
    (args : CliArgs)
    → (in_memory args ≡ true)
      ⊎ ((is_some (filter_blank args.db_username) ≡ true)
          × (is_some (filter_blank args.db_password) ≡ true))
    → missing args ≡ none
unfolding missing
nothing_missing args (inl memory) = rw memory refl
nothing_missing args (inr (user, password)) = elim (Bool-cases (in_memory args)) [
  | inl memory ↦ rw memory refl
  | inr out ↦ ground (
    arith,
    uri_given args out,
    none_unless_some (filter_blank args.db_username) user,
    none_unless_some (filter_blank args.db_password) password,
  )
]

pub accepted :
    (args : CliArgs) (c : DocxConfig)
    → try_from args ≡ config c
    → (missing args ≡ none) × (is_empty (trim args.db_namespace) ≡ false) × (c ≡ from_args args)
accepted args c e = elim (Option-cases (missing args)) [
  | inl m ↦ elim (Bool-cases (is_empty (trim args.db_namespace))) [
    | inl blank ↦ absurd (config_not_fails (sym e ∙ stops_on_blank args m blank))
    | inr full ↦ (m, full, config_injective (sym e ∙ goes_on args m full))
  ]
  | inr (x, m) ↦ absurd (config_not_fails (sym e ∙ stops_on_missing args x m))
]

pub missing-none :
    (args : CliArgs)
    → missing args ≡ none
    → in_memory args ≡ false
    → (is_some (filter_blank args.db_uri) ≡ true)
      × (is_some (filter_blank args.db_username) ≡ true)
      × (is_some (filter_blank args.db_password) ≡ true)
unfolding missing
missing-none args m out = (
  some_unless_none (filter_blank args.db_uri) (ground arith),
  some_unless_none (filter_blank args.db_username) (ground arith),
  some_unless_none (filter_blank args.db_password) (ground arith),
)

ttl_not_zero : (secs : ℕ) → (if secs == 0 then none else some secs) ≢ some 0
ttl_not_zero secs e = ground (arith, eq_iff secs 0)

-- A configuration that is accepted names a database outside of memory only with its address, its
-- user and its password; its namespace is not blank; a time to live, where it has one, is not zero; and
-- its database is in memory exactly where the arguments ask for that or it has no address.
pub try_from_lem :
    (args : CliArgs) (c : DocxConfig)
    → try_from args ≡ config c
    → (c.db_in_memory ≡ false
        → (is_some c.db_uri ≡ true)
          × (is_some c.db_username ≡ true)
          × (is_some c.db_password ≡ true))
      × (is_empty (trim c.db_namespace) ≡ false)
      × (c.registry_ttl ≢ some 0)
      × (c.db_in_memory ≡ (args.db_in_memory || is_none c.db_uri))
unfolding try_from missing from_args in_memory
try_from_lem args c e =
    let (m, full, p) = accepted args c e in
    subst
      (λ d.
        (d.db_in_memory ≡ false
          → (is_some d.db_uri ≡ true)
            × (is_some d.db_username ≡ true)
            × (is_some d.db_password ≡ true))
        × (is_empty (trim d.db_namespace) ≡ false)
        × (d.registry_ttl ≢ some 0)
        × (d.db_in_memory ≡ (args.db_in_memory || is_none d.db_uri)))
      (sym p) (missing-none args m, full, ttl_not_zero args.registry_ttl_secs, refl)

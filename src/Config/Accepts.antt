-- ===== src/Config/Accepts.antt =====
-- Which arguments make a configuration, and which one: `TryFrom<CliArgs>` for `DocxConfig` in
-- crates/bin/docx-mcpd/src/config.rs.
use docx_mcp.Base.{
  ℕ, Bool, true, false, ◌||◌, not, Option, none, some, ◌≡◌, ◌≢◌, ◌↔◌, ◌⊎◌, refl, sym, ap, ◌∙◌,
  arith, if◌then◌else◌, ◌==◌, nat_eq, eq_iff, is_empty, is_some, is_none, Bool-cases, inl, inr,
  unwrap_or,
}
use docx_mcp.Text.{Text, trim}
use docx_mcp.Config.{
  CliArgs, DocxConfig, config, filter_blank, in_memory, from_args, try_from, goes_on,
  nothing_missing, accepted, missing-none,
}

-- A setting that is there and not blank.
abbrev pub is_given : Option Text → Bool
is_given none = false
is_given (some value) = not (is_empty (trim value))

-- The arguments have a namespace; and they ask for a database in memory, or leave its address out, or
-- give it a user and a password.
abbrev pub IsComplete : CliArgs → Type 0
IsComplete args =
    (is_empty (trim args.db_namespace) ≡ false)
    × ((args.db_in_memory ≡ true)
        ⊎ (is_given args.db_uri ≡ false)
        ⊎ ((is_given args.db_username ≡ true) × (is_given args.db_password ≡ true)))

-- A setting is kept as it is where it is not blank, and is none otherwise.
abbrev pub IsKept : Option Text → Option Text → Type 0
IsKept setting kept =
    (value : Text)
    → (kept ≡ some value) ↔ ((setting ≡ some value) × (is_empty (trim value) ≡ false))

abbrev pub sweep_secs : Option ℕ → ℕ → ℕ
sweep_secs none ttl = ttl
sweep_secs (some secs) ttl = secs

-- What a configuration has from the arguments.
pub record IsTaken (args : CliArgs) (c : DocxConfig) : Type 0 where
  pub db_namespace : c.db_namespace ≡ args.db_namespace
  pub registry_ttl :
      (secs : ℕ) → (c.registry_ttl ≡ some secs) ↔ ((args.registry_ttl_secs ≡ secs) × (secs ≢ 0))
  pub sweep_interval : c.sweep_interval ≡ sweep_secs args.registry_sweep_secs args.registry_ttl_secs
  pub health_check_after : c.health_check_after ≡ args.registry_health_check_secs
  pub max_entries : c.max_entries ≡ args.max_entries
  pub enable_stdio : c.enable_stdio ≡ args.enable_stdio
  pub mcp_serve : c.mcp_serve ≡ args.mcp_serve
  pub ingest_serve : c.ingest_serve ≡ args.ingest_serve
  pub mcp_http_addr : c.mcp_http_addr ≡ args.mcp_http_addr
  pub ingest_addr : c.ingest_addr ≡ args.ingest_addr
  pub ingest_timeout : c.ingest_timeout ≡ args.ingest_timeout_secs
  pub ingest_max_body_bytes : c.ingest_max_body_bytes ≡ args.ingest_max_body_bytes
  pub db_in_memory : c.db_in_memory ≡ (args.db_in_memory || not (is_given args.db_uri))
  pub db_uri : IsKept args.db_uri c.db_uri
  pub db_username : IsKept args.db_username c.db_username
  pub db_password : IsKept args.db_password c.db_password
  pub test_mode : c.test_mode ≡ args.test_mode

is_given-filter_blank : (o : Option Text) → is_some (filter_blank o) ≡ is_given o
unfolding filter_blank
is_given-filter_blank none = refl
is_given-filter_blank (some value) = ground arith

is_none-filter_blank : (o : Option Text) → is_none (filter_blank o) ≡ not (is_given o)
unfolding filter_blank
is_none-filter_blank none = refl
is_none-filter_blank (some value) = ground arith

true_not_false : true ≢ false
true_not_false p = ground (arith, p)

filter_blank-IsKept : (o : Option Text) → IsKept o (filter_blank o)
unfolding filter_blank
filter_blank-IsKept none value = (λ e. ground (arith, e), λ (e, full). e)
filter_blank-IsKept (some given) value = elim (Bool-cases (is_empty (trim given))) [
  | inl blank ↦ rw blank (
    λ e. ground (arith, e),
    λ (e, full).
        let p : given ≡ value = ground (arith, e) in
        absurd (true_not_false (sym blank ∙ ap (λ t. is_empty (trim t)) p ∙ full)),
  )
  | inr full ↦ rw full (
    λ e.
        let p : given ≡ value = ground (arith, e) in
        (e, ap (λ t. is_empty (trim t)) (sym p) ∙ full),
    λ (e, _). e,
  )
]

ttl_iff :
    (ttl secs : ℕ)
    → ((if ttl == 0 then none else some ttl) ≡ some secs) ↔ ((ttl ≡ secs) × (secs ≢ 0))
ttl_iff ttl secs = ground (arith, eq_iff ttl 0)

in_memory-given :
    (args : CliArgs) → in_memory args ≡ (args.db_in_memory || not (is_given args.db_uri))
unfolding in_memory
in_memory-given args = ap (λ b. args.db_in_memory || b) (is_none-filter_blank args.db_uri)

sweep-unwrap_or : (o : Option ℕ) (ttl : ℕ) → unwrap_or o ttl ≡ sweep_secs o ttl
sweep-unwrap_or none ttl = refl
sweep-unwrap_or (some secs) ttl = refl

from_args-IsTaken : (args : CliArgs) → IsTaken args (from_args args)
unfolding from_args
from_args-IsTaken args = record {
  db_namespace = refl;
  registry_ttl = ttl_iff args.registry_ttl_secs;
  sweep_interval = sweep-unwrap_or args.registry_sweep_secs args.registry_ttl_secs;
  health_check_after = refl;
  max_entries = refl;
  enable_stdio = refl;
  mcp_serve = refl;
  ingest_serve = refl;
  mcp_http_addr = refl;
  ingest_addr = refl;
  ingest_timeout = refl;
  ingest_max_body_bytes = refl;
  db_in_memory = in_memory-given args;
  db_uri = filter_blank-IsKept args.db_uri;
  db_username = filter_blank-IsKept args.db_username;
  db_password = filter_blank-IsKept args.db_password;
  test_mode = refl;
}

nothing_missing-given :
    (args : CliArgs)
    → (args.db_in_memory ≡ true)
      ⊎ (is_given args.db_uri ≡ false)
      ⊎ ((is_given args.db_username ≡ true) × (is_given args.db_password ≡ true))
    → (in_memory args ≡ true)
      ⊎ ((is_some (filter_blank args.db_username) ≡ true)
          × (is_some (filter_blank args.db_password) ≡ true))
nothing_missing-given args (inl memory) = inl (in_memory-given args ∙ ground arith)
nothing_missing-given args (inr (inl no_uri)) = inl (in_memory-given args ∙ ground arith)
nothing_missing-given args (inr (inr (user, password))) = inr (
  is_given-filter_blank args.db_username ∙ user,
  is_given-filter_blank args.db_password ∙ password,
)

memory-cases :
    (args : CliArgs)
    → in_memory args ≡ true
    → (args.db_in_memory ≡ true) ⊎ (is_given args.db_uri ≡ false)
memory-cases args m = elim (Bool-cases args.db_in_memory) [
  | inl asked ↦ inl asked
  | inr other ↦ inr (ground (arith, in_memory-given args))
]

accepted-IsComplete : (args : CliArgs) (c : DocxConfig) → try_from args ≡ config c → IsComplete args
accepted-IsComplete args c e =
    let (m, full, p) = accepted args c e in
    (
      full,
      elim (Bool-cases (in_memory args)) [
        | inl memory ↦ elim (memory-cases args memory) [
          | inl asked ↦ inl asked
          | inr no_uri ↦ inr (inl no_uri)
        ]
        | inr out ↦
            let (uri, user, password) = missing-none args m out in
            inr (
              inr (
                sym (is_given-filter_blank args.db_username) ∙ user,
                sym (is_given-filter_blank args.db_password) ∙ password,
              ))
      ],
    )

-- Arguments are accepted exactly when they have a namespace and ask for a database in memory, or leave
-- its address out, or give it a user and a password; and the configuration is then the one that has
-- each setting from them: blank addresses, users and passwords as missing, a time to live of zero as
-- none, the time to live where no sweep interval is given, and a database in memory where that is asked
-- for or no address is given.
pub try_from-accepts :
    (args : CliArgs)
    → IsComplete args ↔ ((c : DocxConfig) × (try_from args ≡ config c) × IsTaken args c)
try_from-accepts args = (
  λ (full, given). (
    from_args args,
    goes_on args (nothing_missing args (nothing_missing-given args given)) full,
    from_args-IsTaken args,
  ),
  λ (c, e, taken). accepted-IsComplete args c e,
)

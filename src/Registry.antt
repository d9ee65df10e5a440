-- ===== src/Registry.antt =====
-- The solution registry of crates/lib/docx-core/src/services.rs.
--
-- An `Arc<SolutionEntry>` is an address of `heap`, since a request may hold an entry that has left
-- the map. What runs under one lock guard is one function: `insert_entry` under the map's write
-- lock, `read_handle` under the entry's read lock, `rebuild` under its write lock. Clock readings,
-- ping results and what the builder returns are arguments. `builds` counts, for each entry, the
-- calls of the builder that succeeded; the program does not keep it.
pub mod Tasks
pub mod Capacity
pub mod Calm
pub mod SingleFlight
pub mod Sequence
pub mod Listing
use docx_mcp.Base.{
  ℕ, suc, ◌+◌, ◌-◌, Bool, true, false, ◌&&◌, ◌||◌, Option, none, some, List, [], ◌∷◌, ◌==◌, nat_eq,
  list_eq, if◌then◌else◌, leb, length, is_some,
}
use docx_mcp.Text.{Text}
use docx_mcp.Collections.HashMap

-- `ttl` and `health_check_after` in milliseconds. The builder and the discovery function are not
-- fields: what they return is given to each call.
pub record SolutionRegistryConfig : Type 0 where
  pub ttl : Option ℕ
  pub sweep_interval : ℕ
  pub max_entries : Option ℕ
  pub health_check_after : ℕ

-- `SolutionRegistryConfig::new`, and the builder methods.
abbrev pub new_config : SolutionRegistryConfig
new_config = record {
  ttl = none;
  sweep_interval = 60000;
  max_entries = none;
  health_check_after = 60000;
}

abbrev pub with_ttl : ℕ → SolutionRegistryConfig → SolutionRegistryConfig
with_ttl ttl c = record c { ttl = some ttl }

abbrev pub with_sweep_interval : ℕ → SolutionRegistryConfig → SolutionRegistryConfig
with_sweep_interval interval c = record c { sweep_interval = interval }

abbrev pub with_max_entries : ℕ → SolutionRegistryConfig → SolutionRegistryConfig
with_max_entries max_entries c = record c { max_entries = some max_entries }

abbrev pub with_health_check_after : ℕ → SolutionRegistryConfig → SolutionRegistryConfig
with_health_check_after after c = record c { health_check_after = after }

pub data RegistryError : Type 0 where
  unknown_solution : Text → RegistryError
  capacity_reached : ℕ → RegistryError
  build_failed : Text → RegistryError

pub data Result (A : Type 0) : Type 0 where
  ok : A → Result A
  err : RegistryError → Result A

pub record SolutionEntry (H : Type 0) : Type 0 where
  pub handle : Option H
  pub last_used_ms : ℕ

pub record SolutionRegistry (H : Type 0) : Type 0 where
  pub entries : List (Text × ℕ)
  pub heap : ℕ → SolutionEntry H
  pub next : ℕ
  pub builds : ℕ → ℕ

abbrev pub update {ℓ} : {A : Type ℓ} → (ℕ → A) → ℕ → A → ℕ → A
update f a x b = if b == a then x else f b

-- `map.len() >= max_entries`, with the limit that the error reports
unfoldable pub reached : Option ℕ → ℕ → Option ℕ
reached none len = none
reached (some max_entries) len = if leb max_entries len then some max_entries else none

-- What the block under `entry.handle.write()` comes to: a handle that another task has built in
-- the meantime, a new one, or the builder's error.
pub data Rebuilt (H : Type 0) : Type 0 where
  kept : H → Rebuilt H
  built : H → Rebuilt H
  refused : RegistryError → Rebuilt H

-- What the world answers during one call: the clock, the pings and the builder.
pub record Moment (H : Type 0) : Type 0 where
  pub now : ℕ
  pub ping : Bool
  pub build_handle : Text → Result H

module _ {H : Type 0} where
  abbrev pub new_entry : ℕ → SolutionEntry H
  new_entry now = record { handle = none; last_used_ms = now }

  -- `now_ms.saturating_sub(last)`: `-` stops at 0
  unfoldable pub idle_for : SolutionEntry H → ℕ → ℕ
  idle_for entry now = now - entry.last_used_ms

  abbrev pub new_registry : SolutionRegistry H
  new_registry = record { entries = []; heap = λ a. new_entry 0; next = 0; builds = λ a. 0 }

  unfoldable pub touch : ℕ → ℕ → SolutionRegistry H → SolutionRegistry H
  touch a now s = record s { heap = update s.heap a (record (s.heap a) { last_used_ms = now }) }

  -- The block under `entries.write()`.
  unfoldable pub insert_entry :
      SolutionRegistryConfig → ℕ → Text → SolutionRegistry H → Result ℕ × SolutionRegistry H
  unfolding reached
  insert_entry config now solution s = elim (HashMap.get solution s.entries) [
    | some a ↦ (ok a, s)
    | none ↦ elim (reached config.max_entries (length s.entries)) [
      | some limit ↦ (err (capacity_reached limit), s)
      | none ↦ (
        ok s.next,
        record s {
          entries = HashMap.insert solution s.next s.entries;
          heap = update s.heap s.next (new_entry now);
          next = suc s.next;
        },
      )
    ]
  ]

  -- The lookup under `entries.read()`, and the insertion where it misses.
  unfoldable pub acquire :
      SolutionRegistryConfig → ℕ → Text → SolutionRegistry H → Result ℕ × SolutionRegistry H
  unfolding insert_entry
  acquire config now solution s = elim (HashMap.get solution s.entries) [
    | some a ↦ (ok a, s)
    | none ↦ insert_entry config now solution s
  ]

  -- The block under `entry.handle.read()`: the handle, if it was used lately or answers the ping.
  unfoldable pub read_handle :
      SolutionRegistryConfig → ℕ → Bool → ℕ → SolutionRegistry H → Option H × SolutionRegistry H
  unfolding idle_for touch
  read_handle config now ping a s = elim (s.heap a).handle [
    | none ↦ (none, s)
    | some handle ↦
        if leb (idle_for (s.heap a) now) config.health_check_after || ping
        then (some handle, touch a now s)
        else (none, s)
  ]

  abbrev pub store_handle : ℕ → Result H → SolutionRegistry H → Rebuilt H × SolutionRegistry H
  store_handle a (err e) s = (refused e, s)
  store_handle a (ok handle) s = (
    built handle,
    record s {
      heap = update s.heap a (record (s.heap a) { handle = some handle });
      builds = update s.builds a (suc (s.builds a));
    },
  )

  unfoldable pub rebuild :
      ℕ → Bool → (Text → Result H) → Text → ℕ → SolutionRegistry H → Rebuilt H × SolutionRegistry H
  unfolding touch
  rebuild now ping build_handle solution a s = elim (s.heap a).handle [
    | none ↦ store_handle a (build_handle solution) s
    | some handle ↦
        if ping then (kept handle, touch a now s) else store_handle a (build_handle solution) s
  ]

  abbrev pub finish : ℕ → ℕ → Rebuilt H × SolutionRegistry H → Result H × SolutionRegistry H
  finish now a (kept handle, s) = (ok handle, s)
  finish now a (built handle, s) = (ok handle, touch a now s)
  finish now a (refused e, s) = (err e, s)

  abbrev pub after_read :
      Moment H → Moment H → Text → ℕ → Option H × SolutionRegistry H → Result H × SolutionRegistry H
  after_read m n solution a (some handle, s) = (ok handle, s)
  after_read m n solution a (none, s) =
      finish n.now a (rebuild m.now m.ping m.build_handle solution a s)

  abbrev pub after_acquire :
      SolutionRegistryConfig
      → Moment H
      → Moment H
      → Moment H
      → Text
      → Result ℕ × SolutionRegistry H
      → Result H × SolutionRegistry H
  after_acquire config l m n solution (err e, s) = (err e, s)
  after_acquire config l m n solution (ok a, s) =
      after_read m n solution a (read_handle config l.now l.ping a s)

  -- `get_or_init`, run with no other task between its locks: `k`, `l`, `m` and `n` are the moments
  -- of the insertion, the read, the rebuild and the last touch.
  unfoldable pub get_or_init :
      SolutionRegistryConfig
      → Moment H
      → Moment H
      → Moment H
      → Moment H
      → Text
      → SolutionRegistry H
      → Result H × SolutionRegistry H
  unfolding acquire read_handle rebuild touch
  get_or_init config k l m n solution s =
      after_acquire config l m n solution (acquire config k.now solution s)

  unfoldable pub remove_solution : Text → SolutionRegistry H → Bool × SolutionRegistry H
  remove_solution solution s = (
    is_some (HashMap.get solution s.entries),
    record s { entries = HashMap.remove solution s.entries },
  )

  -- `map.retain(…)` with the test of `evict_idle`
  unfoldable pub retain : ℕ → ℕ → (ℕ → SolutionEntry H) → List (Text × ℕ) → List (Text × ℕ)
  unfolding idle_for
  retain ttl now heap [] = []
  retain ttl now heap ((key, a) ∷ rest) =
      let kept = retain ttl now heap rest in
      if leb (idle_for (heap a) now) ttl then (key, a) ∷ kept else kept

  unfoldable pub evict_with : Option ℕ → ℕ → SolutionRegistry H → ℕ × SolutionRegistry H
  unfolding retain
  evict_with none now s = (0, s)
  evict_with (some ttl) now s =
      let kept = retain ttl now s.heap s.entries in
      (length s.entries - length kept, record s { entries = kept })

  unfoldable pub evict_idle :
      SolutionRegistryConfig → ℕ → SolutionRegistry H → ℕ × SolutionRegistry H
  unfolding evict_with
  evict_idle config now s = evict_with config.ttl now s

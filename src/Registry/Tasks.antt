-- ===== src/Registry/Tasks.antt =====
-- Requests to the registry as concurrent tasks: between the locks of one `get_or_init` any other
-- task, the sweeper or a removal may run.
use docx_mcp.Base.{ℕ, zero, suc, nat_eq, list_eq, Option, none, some, List, [], ◌∷◌, ◌≡◌, refl}
use docx_mcp.Text.{Text}
use docx_mcp.Collections.HashMap
use docx_mcp.Registry.{
  SolutionRegistryConfig, SolutionRegistry, RegistryError, Result, ok, err, Rebuilt, kept, built,
  refused, Moment, insert_entry, read_handle, rebuild, touch, evict_idle, remove_solution,
  new_registry,
}

-- Where a call of `get_or_init` stands.
pub data Task (H : Type 0) : Type 0 where
  looking : Text → Task H
  missing : Text → Task H
  holding : Text → ℕ → Task H
  stale : Text → ℕ → Task H
  touching : Text → ℕ → H → Task H
  finished : Text → H → Task H
  failed : Text → RegistryError → Task H

module _ {H : Type 0} where
  abbrev pub after_lookup : Text → Option ℕ → Task H
  after_lookup solution (some a) = holding solution a
  after_lookup solution none = missing solution

  abbrev pub after_insert : Text → Result ℕ × SolutionRegistry H → Task H × SolutionRegistry H
  after_insert solution (ok a, s) = (holding solution a, s)
  after_insert solution (err e, s) = (failed solution e, s)

  abbrev pub after_read : Text → ℕ → Option H × SolutionRegistry H → Task H × SolutionRegistry H
  after_read solution a (some handle, s) = (finished solution handle, s)
  after_read solution a (none, s) = (stale solution a, s)

  abbrev pub after_rebuild : Text → ℕ → Rebuilt H × SolutionRegistry H → Task H × SolutionRegistry H
  after_rebuild solution a (kept handle, s) = (finished solution handle, s)
  after_rebuild solution a (built handle, s) = (touching solution a handle, s)
  after_rebuild solution a (refused e, s) = (failed solution e, s)

  -- One lock's worth of `get_or_init`.
  unfoldable pub advance :
      SolutionRegistryConfig → Moment H → Task H → SolutionRegistry H → Task H × SolutionRegistry H
  unfolding insert_entry read_handle rebuild touch
  advance config m (looking solution) s =
      (after_lookup solution (HashMap.get solution s.entries), s)
  advance config m (missing solution) s =
      after_insert solution (insert_entry config m.now solution s)
  advance config m (holding solution a) s =
      after_read solution a (read_handle config m.now m.ping a s)
  advance config m (stale solution a) s =
      after_rebuild solution a (rebuild m.now m.ping m.build_handle solution a s)
  advance config m (touching solution a handle) s = (finished solution handle, touch a m.now s)
  advance config m (finished solution handle) s = (finished solution handle, s)
  advance config m (failed solution e) s = (failed solution e, s)

module _ {H : Type 0} where
  -- The registry after a lock's worth of work is what the block under the lock left.
  pub after_insert-registry :
      (n : Text) (r : Result ℕ × SolutionRegistry H) → (after_insert n r).1 ≡ r.1
  after_insert-registry n (ok a, s) = refl
  after_insert-registry n (err e, s) = refl

  pub after_read-registry :
      (n : Text) (a : ℕ) (r : Option H × SolutionRegistry H) → (after_read n a r).1 ≡ r.1
  after_read-registry n a (some h, s) = refl
  after_read-registry n a (none, s) = refl

  pub after_rebuild-registry :
      (n : Text) (a : ℕ) (r : Rebuilt H × SolutionRegistry H) → (after_rebuild n a r).1 ≡ r.1
  after_rebuild-registry n a (kept h, s) = refl
  after_rebuild-registry n a (built h, s) = refl
  after_rebuild-registry n a (refused e, s) = refl

pub record System (H : Type 0) : Type 0 where
  pub registry : SolutionRegistry H
  pub tasks : List (Task H)

module _ {H : Type 0} where
  -- The task at a position moves on.
  unfoldable pub move :
      SolutionRegistryConfig
      → Moment H
      → ℕ
      → List (Task H)
      → SolutionRegistry H
      → List (Task H) × SolutionRegistry H
  unfolding advance
  move config m i [] s = ([], s)
  move config m zero (t ∷ ts) s = let (t', s') = advance config m t s in (t' ∷ ts, s')
  move config m (suc i) (t ∷ ts) s = let (ts', s') = move config m i ts s in (t ∷ ts', s')

  abbrev pub run : SolutionRegistryConfig → Moment H → ℕ → System H → System H
  run config m i sys =
      let moved = move config m i sys.tasks sys.registry in
      record { registry = moved.1; tasks = moved.0 }

-- A request arrives, a task runs to its next lock, the sweeper ticks, or a solution is removed.
pub data Step {H : Type 0} (config : SolutionRegistryConfig) : System H → System H → Type 0 where
  request :
      (solution : Text) (sys : System H)
      → Step config sys (record sys { tasks = looking solution ∷ sys.tasks })
  runs : (i : ℕ) (m : Moment H) (sys : System H) → Step config sys (run config m i sys)
  sweep :
      (now : ℕ) (sys : System H)
      → Step config sys (record sys { registry = (evict_idle config now sys.registry).1 })
  removal :
      (solution : Text) (sys : System H)
      → Step config sys (record sys { registry = (remove_solution solution sys.registry).1 })

abbrev pub init : {H : Type 0} → System H
init = record { registry = new_registry; tasks = [] }

pub data Reach {H : Type 0} (config : SolutionRegistryConfig) : System H → Type 0 where
  start : Reach config init
  next : {s t : System H} → Reach config s → Step config s t → Reach config t

-- ===== src/Registry/Capacity.antt =====
-- The registry's map keeps its limit and its keys distinct, whatever the tasks do.
use docx_mcp.Base.{
  ℕ, zero, suc, ◌≤◌, Bool, false, Option, none, some, List, [], ◌∷◌, ◌≡◌, refl, arith, nat_eq,
  list_eq, length, Option-cases, inl, inr,
}
use docx_mcp.Text.{Text}
use docx_mcp.Collections.HashSet.{contains, Distinct}
use docx_mcp.Collections.HashMap
use docx_mcp.Registry.{
  SolutionRegistryConfig, SolutionRegistry, SolutionEntry, Result, Moment, reached, insert_entry,
  read_handle, rebuild, retain, evict_with, evict_idle, remove_solution,
}
use docx_mcp.Registry.Tasks.{
  Task, looking, missing, holding, stale, touching, finished, failed, advance, move, System,
  request, runs, sweep, removal, Reach, start, next, after_insert-registry, after_read-registry,
  after_rebuild-registry,
}

abbrev pub Fits : Option ℕ → ℕ → Type 0
Fits none n = Unit
Fits (some limit) n = n ≤ limit

pub record IsSound {H : Type 0} (config : SolutionRegistryConfig) (s : SolutionRegistry H)
    : Type 0 where
  pub fits : Fits config.max_entries (length s.entries)
  pub distinct : Distinct (HashMap.keys s.entries)

Fits-mono : (limit : Option ℕ) (m n : ℕ) → m ≤ n → Fits limit n → Fits limit m
Fits-mono none m n h f = tt
Fits-mono (some limit) m n h f = omega arith

Fits-zero : (limit : Option ℕ) → Fits limit 0
Fits-zero none = tt
Fits-zero (some limit) = omega arith

Fits-room : (limit : Option ℕ) (n : ℕ) → reached limit n ≡ none → Fits limit (suc n)
unfolding reached
Fits-room none n h = tt
Fits-room (some limit) n h = ground arith

module _ {H : Type 0} (config : SolutionRegistryConfig) where
  insert_entry-IsSound :
      (now : ℕ) (solution : Text) (s : SolutionRegistry H)
      → IsSound config s
      → IsSound config (insert_entry config now solution s).1
  unfolding insert_entry
  insert_entry-IsSound now solution s v = elim (Option-cases (HashMap.get solution s.entries)) [
    | inr (a, found) ↦ rw (found, insert_entry) v
    | inl miss ↦ elim (Option-cases (reached config.max_entries (length s.entries))) [
      | inr (limit, full) ↦ rw (miss, full, insert_entry) v
      | inl room ↦
          rw (miss, room, insert_entry)
            (record {
              fits = ground (
                arith,
                Fits-room config.max_entries (length s.entries) room,
                HashMap.length-insert solution s.next s.entries,
                HashMap.get-contains solution s.entries,
              );
              distinct = HashMap.Distinct-insert solution s.next s.entries v.distinct;
            })
    ]
  ]

  -- The blocks under an entry's lock leave the map alone.
  entries-read_handle :
      (now : ℕ) (ping : Bool) (a : ℕ) (s : SolutionRegistry H)
      → (read_handle config now ping a s).1.entries ≡ s.entries
  unfolding read_handle
  entries-read_handle now ping a s = ground arith

  same_entries-IsSound :
      (s t : SolutionRegistry H) → t.entries ≡ s.entries → IsSound config s → IsSound config t
  same_entries-IsSound s t e v = record { fits = rw e v.fits; distinct = rw e v.distinct }

  entries-rebuild :
      (now : ℕ) (ping : Bool) (build_handle : Text → Result H) (solution : Text) (a : ℕ)
      (s : SolutionRegistry H)
      → (rebuild now ping build_handle solution a s).1.entries ≡ s.entries
  unfolding rebuild
  entries-rebuild now ping build_handle solution a s = ground arith

  advance-IsSound :
      (m : Moment H) (t : Task H) (s : SolutionRegistry H)
      → IsSound config s
      → IsSound config (advance config m t s).1
  unfolding advance
  advance-IsSound m (looking n) s v = v
  advance-IsSound m (missing n) s v =
      rw (after_insert-registry n (insert_entry config m.now n s))
        (insert_entry-IsSound m.now n s v)
  advance-IsSound m (holding n a) s v =
      rw (after_read-registry n a (read_handle config m.now m.ping a s))
        (same_entries-IsSound s _ (entries-read_handle m.now m.ping a s) v)
  advance-IsSound m (stale n a) s v =
      rw (after_rebuild-registry n a (rebuild m.now m.ping m.build_handle n a s))
        (same_entries-IsSound s _ (entries-rebuild m.now m.ping m.build_handle n a s) v)
  advance-IsSound m (touching n a h) s v = record { fits = v.fits; distinct = v.distinct }
  advance-IsSound m (finished n h) s v = v
  advance-IsSound m (failed n e) s v = v

  move-IsSound :
      (m : Moment H) (i : ℕ) (ts : List (Task H)) (s : SolutionRegistry H)
      → IsSound config s
      → IsSound config (move config m i ts s).1
  unfolding move
  move-IsSound m zero [] s v = v
  move-IsSound m (suc i) [] s v = v
  move-IsSound m zero (t ∷ ts) s v = advance-IsSound m t s v
  move-IsSound m (suc i) (t ∷ ts) s v = move-IsSound m i ts s v

  contains-retain :
      (ttl now : ℕ) (heap : ℕ → SolutionEntry H) (k : Text) (l : List (Text × ℕ))
      → contains k (HashMap.keys l) ≡ false
      → contains k (HashMap.keys (retain ttl now heap l)) ≡ false
  unfolding retain contains
  contains-retain ttl now heap k [] h = refl
  contains-retain ttl now heap k ((j, a) ∷ l) h = ground (arith, contains-retain ttl now heap k l)

  retain-Distinct :
      (ttl now : ℕ) (heap : ℕ → SolutionEntry H) (l : List (Text × ℕ))
      → Distinct (HashMap.keys l)
      → Distinct (HashMap.keys (retain ttl now heap l))
  unfolding retain
  retain-Distinct ttl now heap [] d = tt
  retain-Distinct ttl now heap ((j, a) ∷ l) (h, d) =
      ground (arith, contains-retain ttl now heap j l h, retain-Distinct ttl now heap l d)

  length-retain-le :
      (ttl now : ℕ) (heap : ℕ → SolutionEntry H) (l : List (Text × ℕ))
      → length (retain ttl now heap l) ≤ length l
  unfolding retain
  length-retain-le ttl now heap [] = omega arith
  length-retain-le ttl now heap ((j, a) ∷ l) = ground (arith, length-retain-le ttl now heap l)

  evict_with-IsSound :
      (ttl : Option ℕ) (now : ℕ) (s : SolutionRegistry H)
      → IsSound config s
      → IsSound config (evict_with ttl now s).1
  unfolding evict_with
  evict_with-IsSound none now s v = v
  evict_with-IsSound (some ttl) now s v = record {
    fits = Fits-mono config.max_entries _ _ (length-retain-le ttl now s.heap s.entries) v.fits;
    distinct = retain-Distinct ttl now s.heap s.entries v.distinct;
  }

  evict_idle-IsSound :
      (now : ℕ) (s : SolutionRegistry H)
      → IsSound config s
      → IsSound config (evict_idle config now s).1
  unfolding evict_idle
  evict_idle-IsSound now s v = evict_with-IsSound config.ttl now s v

  remove_solution-IsSound :
      (solution : Text) (s : SolutionRegistry H)
      → IsSound config s
      → IsSound config (remove_solution solution s).1
  unfolding remove_solution
  remove_solution-IsSound solution s v = record {
    fits = Fits-mono config.max_entries _ _ (HashMap.length-remove-le solution s.entries) v.fits;
    distinct = HashMap.Distinct-remove solution s.entries v.distinct;
  }

  -- Whatever requests, sweeps and removals run, and however they interleave, the map never holds
  -- more entries than `max_entries`, and no solution has two entries.
  pub Reach-IsSound : {sys : System H} → Reach config sys → IsSound config sys.registry
  Reach-IsSound start = record { fits = Fits-zero config.max_entries; distinct = tt }
  Reach-IsSound (next r (request solution sys)) = Reach-IsSound r
  Reach-IsSound (next r (runs i m sys)) = move-IsSound m i sys.tasks sys.registry (Reach-IsSound r)
  Reach-IsSound (next r (sweep now sys)) = evict_idle-IsSound now sys.registry (Reach-IsSound r)
  Reach-IsSound (next r (removal solution sys)) =
      remove_solution-IsSound solution sys.registry (Reach-IsSound r)

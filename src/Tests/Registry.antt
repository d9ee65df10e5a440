-- ===== src/Tests/Registry.antt =====
-- The registry with a limit of one entry, and handles that are numbers.
use docx_mcp.Base.{
  ℕ, true, false, some, List, [], ◌∷◌, ◌≡◌, refl, inl, length, ◌+◌, In, nat_eq, list_eq,
}
use docx_mcp.Text.{Text, codes}
use docx_mcp.Collections.HashMap
use docx_mcp.Collections.HashSet.{contains}
use docx_mcp.Collections.Sort.{IsSorted}
use docx_mcp.Registry.{
  SolutionRegistryConfig, SolutionRegistry, Moment, ok, err, build_failed, new_config,
  with_max_entries, with_ttl, new_registry, get_or_init, evict_idle, evict_with, retain, acquire,
  insert_entry, read_handle, rebuild, touch, reached, idle_for, capacity_reached,
}
use docx_mcp.Registry.Tasks.{
  System, request, runs, Reach, start, next, run, looking, finished, move, advance,
}
use docx_mcp.Registry.Capacity.{IsSound, Reach-IsSound}
use docx_mcp.Registry.SingleFlight.{CalmReach, single_flight}
use docx_mcp.Registry.SingleFlight
use docx_mcp.Registry.Sequence.{Moments, call, get_or_init_twice, failed_build_keeps_entry}
use docx_mcp.Registry.Listing.{list_solutions, list_solutions_lem, evict_idle_lem}

abbrev one_entry : SolutionRegistryConfig
one_entry = with_max_entries 1 new_config

abbrev alpha : Text
alpha = codes "alpha"

abbrev beta : Text
beta = codes "beta"

-- The builder returns 7.
abbrev at : ℕ → Moment ℕ
at now = record { now = now; ping = true; build_handle = λ solution. ok 7 }

-- The builder fails.
abbrev down : Moment ℕ
down = record {
  now = 3;
  ping = false;
  build_handle = λ solution. err (build_failed (codes "down"));
}

abbrev calm : Moments ℕ
calm = record { insertion = at 1; read = at 2; rebuilding = at 3; last = at 4 }

abbrev failing : Moments ℕ
failing = record { insertion = down; read = down; rebuilding = down; last = down }

-- Two requests, whose lookups both miss before either inserts.
abbrev two_requests : System ℕ
two_requests = run one_entry (at 4) 1 (
    run one_entry (at 3) 0 (
      run one_entry (at 2) 1 (
        run one_entry (at 1) 0
          (record { registry = new_registry; tasks = looking alpha ∷ looking beta ∷ [] }))))

two_requests-Reach : Reach one_entry two_requests
two_requests-Reach =
    next
      (next
        (next (next (next (next start (request beta _)) (request alpha _)) (runs 0 (at 1) _))
          (runs 1 (at 2) _))
        (runs 0 (at 3) _))
      (runs 1 (at 4) _)

Reach-IsSound_example : IsSound one_entry two_requests.registry
Reach-IsSound_example = Reach-IsSound one_entry two_requests-Reach

-- Runs of the tasks at these positions, one after the other.
abbrev run_all : List ℕ → System ℕ → System ℕ
run_all [] sys = sys
run_all (i ∷ is) sys = run_all is (run one_entry (at 5) i sys)

run_all-CalmReach :
    (is : List ℕ) (sys : System ℕ) → CalmReach one_entry sys → CalmReach one_entry (run_all is sys)
run_all-CalmReach [] sys r = r
run_all-CalmReach (i ∷ is) sys r =
    run_all-CalmReach is (run one_entry (at 5) i sys) (SingleFlight.CalmReach.runs i (at 5) refl r)

-- Both requests for one solution, in turns.
abbrev two_flights : System ℕ
two_flights =
    run_all (0 ∷ 1 ∷ 0 ∷ 1 ∷ 0 ∷ 1 ∷ 0 ∷ 1 ∷ 0 ∷ 1 ∷ [])
      (record { registry = new_registry; tasks = looking alpha ∷ looking alpha ∷ [] })

two_flights-CalmReach : CalmReach one_entry two_flights
two_flights-CalmReach = run_all-CalmReach (0 ∷ 1 ∷ 0 ∷ 1 ∷ 0 ∷ 1 ∷ 0 ∷ 1 ∷ 0 ∷ 1 ∷ []) _ (
    SingleFlight.CalmReach.request alpha
      (SingleFlight.CalmReach.request alpha SingleFlight.CalmReach.start))

single_flight_example :
    (a : ℕ) × (HashMap.get alpha two_flights.registry.entries ≡ some a)
    × (two_flights.registry.builds a ≡ 1)
    × ((h' : ℕ) → In (finished alpha h') two_flights.tasks → h' ≡ 7)
unfolding move advance insert_entry read_handle rebuild touch HashMap.get HashMap.insert reached
    idle_for
single_flight_example = single_flight {sys = two_flights} alpha 7 two_flights-CalmReach (inl refl)

abbrev with_alpha : SolutionRegistry ℕ
with_alpha = (call one_entry calm alpha new_registry).1

get_or_init_twice_example : (call one_entry calm alpha with_alpha).1.builds ≡ with_alpha.builds
unfolding get_or_init acquire insert_entry read_handle rebuild touch HashMap.get HashMap.insert
    reached idle_for
get_or_init_twice_example =
    (get_or_init_twice one_entry calm calm alpha new_registry with_alpha 7 refl refl).1

failed_build_keeps_entry_example :
    length (call one_entry failing alpha (new_registry {H = ℕ})).1.entries ≡ 1
unfolding HashMap.get reached
failed_build_keeps_entry_example =
    (failed_build_keeps_entry one_entry failing alpha new_registry (build_failed (codes "down"))
      refl refl refl).3

list_solutions_lem_example :
    IsSorted (λ name. name) (list_solutions (some (beta ∷ beta ∷ [])) (λ h. []) with_alpha)
list_solutions_lem_example = (list_solutions_lem (some (beta ∷ beta ∷ [])) (λ h. []) with_alpha).0

abbrev short_lived : SolutionRegistryConfig
short_lived = with_ttl 10 one_entry

evict_idle_lem_example :
    (evict_idle short_lived 100 with_alpha).0
      + length (evict_idle short_lived 100 with_alpha).1.entries
    ≡ length with_alpha.entries
unfolding get_or_init acquire insert_entry read_handle rebuild touch HashMap.get HashMap.insert
    reached idle_for contains
evict_idle_lem_example = (evict_idle_lem short_lived 100 10 with_alpha refl (refl, tt)).1

-- The second solution is refused, and the first is gone after the sweep.
full_registry : (call one_entry calm beta with_alpha).0 ≡ err (capacity_reached 1)
unfolding get_or_init acquire insert_entry read_handle rebuild touch HashMap.get HashMap.insert
    reached idle_for
full_registry = refl

swept : (evict_idle short_lived 100 with_alpha).1.entries ≡ []
unfolding evict_idle evict_with retain get_or_init acquire insert_entry read_handle rebuild touch
    HashMap.get HashMap.insert reached idle_for
swept = refl

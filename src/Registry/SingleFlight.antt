-- ===== src/Registry/SingleFlight.antt =====
-- Where no connection fails its ping and no solution leaves the map, the builder succeeds at most
-- once for each solution, and all requests for it get that handle.
use docx_mcp.Base.{ℕ, true, some, ◌∷◌, ◌≡◌, refl, arith, nat_eq, list_eq, All, In, All-In}
use docx_mcp.Text.{Text}
use docx_mcp.Collections.HashMap
use docx_mcp.Registry.{SolutionRegistryConfig, Moment}
use docx_mcp.Registry.Tasks.{looking, finished, run, System, init}
use docx_mcp.Registry.Calm.{IsCalm, Knows, move-Keeps}

-- The steps of a world without failures: requests arrive and tasks run, and every ping succeeds.
pub data CalmReach {H : Type 0} (config : SolutionRegistryConfig) : System H → Type 0 where
  start : CalmReach config init
  request :
      {sys : System H} (solution : Text)
      → CalmReach config sys
      → CalmReach config (record sys { tasks = looking solution ∷ sys.tasks })
  runs :
      {sys : System H} (i : ℕ) (m : Moment H)
      → m.ping ≡ true
      → CalmReach config sys
      → CalmReach config (run config m i sys)

module _ {H : Type 0} {config : SolutionRegistryConfig} where
  calm_invariant :
      {sys : System H}
      → CalmReach config sys
      → IsCalm sys.registry × All (Knows sys.registry) sys.tasks
  calm_invariant start = (
    record {
      in_use = λ n a e. absurd (unfold HashMap.get in cc);
      empty = λ a h. refl;
      counted = λ a. refl;
    },
    tt,
  )
  calm_invariant (request solution r) = let (c, ks) = calm_invariant r in (c, (tt, ks))
  calm_invariant (runs {sys} i m p r) =
      let (c, ks) = calm_invariant r in
      let (c', g, ks') = move-Keeps config m i sys.tasks sys.registry p c ks in (c', ks')

  -- Where requests arrive and run in any order, no ping fails, and nothing is swept or removed: once
  -- a request for a solution has its handle, the solution's entry has been built exactly once, and
  -- every other request for it that has finished has the same handle.
  pub single_flight :
      {sys : System H} (n : Text) (h : H)
      → CalmReach config sys
      → In (finished n h) sys.tasks
      → (a : ℕ) × (HashMap.get n sys.registry.entries ≡ some a)
        × (sys.registry.builds a ≡ 1)
        × ((h' : H) → In (finished n h') sys.tasks → h' ≡ h)
  single_flight {sys} n h r i =
      let (c, ks) = calm_invariant r in
      let (a, e, f) = All-In _ (finished n h) sys.tasks ks i in
      (
        a,
        e,
        ground (arith, c.counted a),
        λ h' i'. let (a', e', f') = All-In _ (finished n h') sys.tasks ks i' in cc,
      )

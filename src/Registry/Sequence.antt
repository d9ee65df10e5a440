-- ===== src/Registry/Sequence.antt =====
-- `get_or_init` with nothing between its locks: it is what its task does alone, it serves a cached
-- handle, and it keeps the entry of a build that failed.
use docx_mcp.Base.{
  ℕ, zero, suc, ◌≤◌, Bool, true, Option, none, some, ◌≡◌, refl, ap, ◌∙◌, arith, nat_eq, list_eq,
  length, is_some, eq_iff,
}
use docx_mcp.Text.{Text}
use docx_mcp.Collections.HashMap
use docx_mcp.Registry.{
  SolutionRegistryConfig, SolutionRegistry, RegistryError, Result, ok, err, Moment,
  capacity_reached, acquire, read_handle, rebuild, touch, reached, get_or_init, finish, after_read,
  after_acquire,
}
use docx_mcp.Registry.Tasks.{Task, looking, missing, holding, stale, finished, failed, advance}

-- The moments of one call: of its insertion, read, rebuild and last touch.
pub record Moments (H : Type 0) : Type 0 where
  pub insertion : Moment H
  pub read : Moment H
  pub rebuilding : Moment H
  pub last : Moment H

module _ {H : Type 0} where
  pub moment_of : Moments H → Task H → Moment H
  moment_of ms (missing n) = ms.insertion
  moment_of ms (holding n a) = ms.read
  moment_of ms (stale n a) = ms.rebuilding
  moment_of ms _ = ms.last

  pub alone :
      SolutionRegistryConfig
      → Moments H
      → ℕ
      → Task H × SolutionRegistry H
      → Task H × SolutionRegistry H
  unfolding advance moment_of
  alone config ms zero r = r
  alone config ms (suc k) (t, s) = alone config ms k (advance config (moment_of ms t) t s)

  abbrev pub outcome : Text → Result H × SolutionRegistry H → Task H × SolutionRegistry H
  outcome n (ok h, s) = (finished n h, s)
  outcome n (err e, s) = (failed n e, s)

  abbrev pub call :
      SolutionRegistryConfig → Moments H → Text → SolutionRegistry H → Result H × SolutionRegistry H
  call config ms n s = get_or_init config ms.insertion ms.read ms.rebuilding ms.last n s

  -- Five steps of the task of a request, with no other task between, are the whole call of
  -- `get_or_init`: the same result and the same registry.
  pub alone-get_or_init :
      (config : SolutionRegistryConfig) (ms : Moments H) (n : Text) (s : SolutionRegistry H)
      → alone config ms 5 (looking n, s) ≡ outcome n (call config ms n s)
  unfolding alone get_or_init
  alone-get_or_init config ms n s = ground arith

  acquire_sound :
      (config : SolutionRegistryConfig) (now : ℕ) (n : Text) (s t : SolutionRegistry H) (a : ℕ)
      → acquire config now n s ≡ (ok a, t)
      → HashMap.get n t.entries ≡ some a
  unfolding acquire
  acquire_sound config now n s t a e =
      ground (arith, HashMap.get-insert n n s.next s.entries, eq_iff n n)

  read_handle_sound :
      (config : SolutionRegistryConfig) (now : ℕ) (ping : Bool) (a : ℕ) (s t : SolutionRegistry H)
      (o : Option H)
      → read_handle config now ping a s ≡ (o, t)
      → (t.entries ≡ s.entries) × (t.builds ≡ s.builds) × (is_some o ≡ true → (t.heap a).handle ≡ o)
  unfolding read_handle
  read_handle_sound config now ping a s t o e = ground (arith, eq_iff a a)

  rebuild_sound :
      (now last : ℕ) (ping : Bool) (build : Text → Result H) (n : Text) (a : ℕ)
      (s t : SolutionRegistry H) (h : H)
      → finish last a (rebuild now ping build n a s) ≡ (ok h, t)
      → (t.entries ≡ s.entries) × ((t.heap a).handle ≡ some h)
  unfolding rebuild
  rebuild_sound now last ping build n a s t h e = ground (arith, eq_iff a a)

  after_read_sound :
      (m l : Moment H) (n : Text) (a : ℕ) (s t : SolutionRegistry H) (h : H)
      → after_read m l n a (none, s) ≡ (ok h, t)
      → (t.entries ≡ s.entries) × ((t.heap a).handle ≡ some h)
  after_read_sound m l n a s t h e = rebuild_sound m.now l.now m.ping m.build_handle n a s t h e

  after_acquire_sound :
      (config : SolutionRegistryConfig) (l m k : Moment H) (n : Text) (a : ℕ)
      (r : Option H × SolutionRegistry H) (s t : SolutionRegistry H) (h : H)
      → read_handle config l.now l.ping a s ≡ r
      → after_read m k n a r ≡ (ok h, t)
      → (t.entries ≡ s.entries) × ((t.heap a).handle ≡ some h)
  after_acquire_sound config l m k n a (none, u) s t h e f =
      let (same, _, _) = read_handle_sound config l.now l.ping a s u none e in
      let (same', is) = after_read_sound m k n a u t h f in (same' ∙ same, is)
  after_acquire_sound config l m k n a (some g, u) s t h e f =
      let (same, _, is) = read_handle_sound config l.now l.ping a s u (some g) e in
      ground (arith, is refl)

  call_sound :
      (config : SolutionRegistryConfig) (ms : Moments H) (n : Text)
      (r : Result ℕ × SolutionRegistry H) (s t : SolutionRegistry H) (h : H)
      → acquire config ms.insertion.now n s ≡ r
      → after_acquire config ms.read ms.rebuilding ms.last n r ≡ (ok h, t)
      → (a : ℕ) × (HashMap.get n t.entries ≡ some a) × ((t.heap a).handle ≡ some h)
  call_sound config ms n (err x, u) s t h e f = absurd (cc)
  call_sound config ms n (ok a, u) s t h e f =
      let (same, is) =
        after_acquire_sound config ms.read ms.rebuilding ms.last n a _ u t h refl f in
      (a, rw same (acquire_sound config ms.insertion.now n s u a e), is)

  -- A call that has returned a handle has cached it: the solution has an entry that holds it.
  pub get_or_init-cached :
      (config : SolutionRegistryConfig) (ms : Moments H) (n : Text) (s t : SolutionRegistry H)
      (h : H)
      → call config ms n s ≡ (ok h, t)
      → (a : ℕ) × (HashMap.get n t.entries ≡ some a) × ((t.heap a).handle ≡ some h)
  unfolding get_or_init
  get_or_init-cached config ms n s t h e = call_sound config ms n _ s t h refl e

  serve_cached :
      (config : SolutionRegistryConfig) (ms : Moments H) (n : Text) (t : SolutionRegistry H) (h : H)
      (a : ℕ)
      → HashMap.get n t.entries ≡ some a
      → (t.heap a).handle ≡ some h
      → ms.read.ping ≡ true
      → call config ms n t ≡ (ok h, touch a ms.read.now t)
  unfolding get_or_init
  serve_cached config ms n t h a e f p = ground arith

  -- After a call that has returned a handle, the next call for the same solution, over a connection
  -- that answers, returns the same handle and does not build: the map and the build counts stay as
  -- they were.
  pub get_or_init_twice :
      (config : SolutionRegistryConfig) (ms ms' : Moments H) (n : Text) (s t : SolutionRegistry H)
      (h : H)
      → call config ms n s ≡ (ok h, t)
      → ms'.read.ping ≡ true
      → ((call config ms' n t).0 ≡ ok h)
        × ((call config ms' n t).1.builds ≡ t.builds)
        × ((call config ms' n t).1.entries ≡ t.entries)
  get_or_init_twice config ms ms' n s t h e p =
      let (a, found, is) = get_or_init-cached config ms n s t h e in
      let same = serve_cached config ms' n t h a found is p in
      (
        ap (λ r. r.0) same,
        ap (λ r. r.1.builds) same ∙ (unfold touch in refl),
        ap (λ r. r.1.entries) same ∙ (unfold touch in refl),
      )

  -- Where a solution has no entry and the map has room, a build that fails returns the builder's
  -- error, and leaves an entry without a handle in the map, which is one longer.
  pub failed_build_keeps_entry :
      (config : SolutionRegistryConfig) (ms : Moments H) (n : Text) (s : SolutionRegistry H)
      (e : RegistryError)
      → HashMap.get n s.entries ≡ none
      → reached config.max_entries (length s.entries) ≡ none
      → ms.rebuilding.build_handle n ≡ err e
      → let t = (call config ms n s).1 in
        ((call config ms n s).0 ≡ err e)
        × (HashMap.get n t.entries ≡ some s.next)
        × ((t.heap s.next).handle ≡ none)
        × (length t.entries ≡ suc (length s.entries))
  unfolding get_or_init
  failed_build_keeps_entry config ms n s e miss room fail = ground (
    arith,
    eq_iff s.next s.next,
    eq_iff n n,
    HashMap.get-insert n n s.next s.entries,
    HashMap.length-insert n s.next s.entries,
    HashMap.get-contains n s.entries,
  )

  -- A new solution is refused while the map is full, and nothing changes then.
  pub capacity_refusal :
      (config : SolutionRegistryConfig) (ms : Moments H) (n : Text) (s : SolutionRegistry H)
      (limit : ℕ)
      → HashMap.get n s.entries ≡ none
      → config.max_entries ≡ some limit
      → limit ≤ length s.entries
      → call config ms n s ≡ (err (capacity_reached limit), s)
  unfolding get_or_init reached
  capacity_refusal config ms n s limit miss max full = ground arith

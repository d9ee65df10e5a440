-- ===== src/Registry/Calm.antt =====
-- The invariant of a registry whose connections all answer, and that every step of a task keeps it.
use docx_mcp.Base.{
  ℕ, zero, suc, ◌≤◌, ◌<◌, Bool, true, Option, none, some, List, [], ◌∷◌, ◌≡◌, ◌∙◌, arith, nat_eq,
  list_eq, length, Option-cases, inl, inr, eq_iff, All,
}
use docx_mcp.Text.{Text}
use docx_mcp.Collections.HashMap
use docx_mcp.Registry.{
  SolutionRegistryConfig, SolutionRegistry, Result, ok, err, Moment, insert_entry, read_handle,
  rebuild, touch, reached, update, store_handle, kept,
}
use docx_mcp.Registry.Tasks.{
  Task, looking, missing, holding, stale, touching, finished, failed, advance, move, after_insert,
  after_read, after_rebuild, after_lookup,
}

abbrev count : {H : Type 0} → Option H → ℕ
count none = 0
count (some h) = 1

-- The addresses in the map are in use, those that are not in use are empty, and the builder has
-- succeeded once for an entry with a handle and never for one without.
pub record IsCalm {H : Type 0} (s : SolutionRegistry H) : Type 0 where
  pub in_use : (n : Text) (a : ℕ) → HashMap.get n s.entries ≡ some a → a < s.next
  pub empty : (a : ℕ) → s.next ≤ a → (s.heap a).handle ≡ none
  pub counted : (a : ℕ) → s.builds a ≡ count (s.heap a).handle

-- What a task relies on.
abbrev pub Knows : {H : Type 0} → SolutionRegistry H → Task H → Type 0
Knows s (looking n) = Unit
Knows s (missing n) = Unit
Knows s (holding n a) = HashMap.get n s.entries ≡ some a
Knows s (stale n a) = HashMap.get n s.entries ≡ some a
Knows s (touching n a h) = (HashMap.get n s.entries ≡ some a) × ((s.heap a).handle ≡ some h)
Knows s (finished n h) = (a : ℕ) × (HashMap.get n s.entries ≡ some a) × ((s.heap a).handle ≡ some h)
Knows s (failed n e) = Unit

-- Entries and handles stay.
pub record Grows {H : Type 0} (s t : SolutionRegistry H) : Type 0 where
  pub entries :
      (n : Text) (a : ℕ) → HashMap.get n s.entries ≡ some a → HashMap.get n t.entries ≡ some a
  pub handles : (a : ℕ) (h : H) → (s.heap a).handle ≡ some h → (t.heap a).handle ≡ some h

module _ {H : Type 0} where
  Grows-refl : (s : SolutionRegistry H) → Grows s s
  Grows-refl s = record { entries = λ n a e. e; handles = λ a h e. e }

  Knows-Grows : {s t : SolutionRegistry H} (k : Task H) → Grows s t → Knows s k → Knows t k
  Knows-Grows (looking n) g k = tt
  Knows-Grows (missing n) g k = tt
  Knows-Grows (holding n a) g k = g.entries n a k
  Knows-Grows (stale n a) g k = g.entries n a k
  Knows-Grows (touching n a h) g k = (g.entries n a k.0, g.handles a h k.1)
  Knows-Grows (finished n h) g (a, e, f) = (a, g.entries n a e, g.handles a h f)
  Knows-Grows (failed n e) g k = tt

  -- What a task's step leaves: a calm registry that has grown, and a task that relies on it.
  pub record Keeps (s : SolutionRegistry H) (r : Task H × SolutionRegistry H) : Type 0 where
    pub calm : IsCalm r.1
    pub grows : Grows s r.1
    pub knows : Knows r.1 r.0

  touch-IsCalm : (a now : ℕ) (s : SolutionRegistry H) → IsCalm s → IsCalm (touch a now s)
  unfolding touch
  touch-IsCalm a now s c = record {
    in_use = c.in_use;
    empty = λ b h. ground (arith, c.empty b h, eq_iff b a);
    counted = λ b. ground (arith, c.counted b, eq_iff b a);
  }

  touch-Grows : (a now : ℕ) (s : SolutionRegistry H) → Grows s (touch a now s)
  unfolding touch
  touch-Grows a now s = record {
    entries = λ n b e. e;
    handles = λ b h e. ground (arith, eq_iff b a);
  }

  handle-touch :
      (a now : ℕ) (s : SolutionRegistry H) (b : ℕ)
      → ((touch a now s).heap b).handle ≡ (s.heap b).handle
  unfolding touch
  handle-touch a now s b = ground (arith, eq_iff b a)

  store_handle-IsCalm :
      (a : ℕ) (h : H) (s : SolutionRegistry H)
      → a < s.next
      → (s.heap a).handle ≡ none
      → IsCalm s
      → IsCalm (store_handle a (ok h) s).1
  store_handle-IsCalm a h s lt e c = record {
    in_use = c.in_use;
    empty = λ b le. ground (arith, c.empty b le, eq_iff b a);
    counted = λ b. ground (arith, c.counted b, c.counted a, eq_iff b a);
  }

  store_handle-Grows :
      (a : ℕ) (h : H) (s : SolutionRegistry H)
      → (s.heap a).handle ≡ none
      → Grows s (store_handle a (ok h) s).1
  store_handle-Grows a h s e = record {
    entries = λ n b p. p;
    handles = λ b k p. ground (arith, eq_iff b a);
  }

  handle-store_handle :
      (a : ℕ) (h : H) (s : SolutionRegistry H)
      → ((store_handle a (ok h) s).1.heap a).handle ≡ some h
  handle-store_handle a h s = ground (arith, eq_iff a a)

  -- A new entry, for a solution that has none.
  abbrev with_new : ℕ → Text → SolutionRegistry H → SolutionRegistry H
  with_new now n s = record s {
    entries = HashMap.insert n s.next s.entries;
    heap = update s.heap s.next (record { handle = none; last_used_ms = now });
    next = suc s.next;
  }

  with_new-Keeps :
      (now : ℕ) (n : Text) (s : SolutionRegistry H)
      → HashMap.get n s.entries ≡ none
      → IsCalm s
      → Keeps s (holding n s.next, with_new now n s)
  with_new-Keeps now n s miss c = record {
    calm = record {
      in_use = λ k a e.
          ground (arith, HashMap.get-insert n k s.next s.entries, eq_iff k n, c.in_use k a);
      empty = λ b le. ground (arith, c.empty b, eq_iff b s.next);
      counted = λ b. ground (arith, c.counted b, c.empty b, eq_iff b s.next);
    };
    grows = record {
      entries = λ k a e. ground (arith, HashMap.get-insert n k s.next s.entries, eq_iff k n);
      handles = λ b h e. ground (arith, c.empty b, eq_iff b s.next);
    };
    knows = ground (arith, HashMap.get-insert n n s.next s.entries, eq_iff n n);
  }

  insert_entry-Keeps :
      (config : SolutionRegistryConfig) (now : ℕ) (n : Text) (s : SolutionRegistry H)
      → IsCalm s
      → Keeps s (after_insert n (insert_entry config now n s))
  unfolding insert_entry
  insert_entry-Keeps config now n s c = elim (Option-cases (HashMap.get n s.entries)) [
    | inr (a, e) ↦ rw (e, insert_entry) (record { calm = c; grows = Grows-refl s; knows = e })
    | inl miss ↦ elim (Option-cases (reached config.max_entries (length s.entries))) [
      | inr (limit, e) ↦
          rw (miss, e, insert_entry) (record { calm = c; grows = Grows-refl s; knows = tt })
      | inl e ↦ rw (miss, e, insert_entry) (with_new-Keeps now n s miss c)
    ]
  ]

  after_lookup-Knows :
      (n : Text) (s : SolutionRegistry H) → Knows s (after_lookup n (HashMap.get n s.entries))
  after_lookup-Knows n s = elim (Option-cases (HashMap.get n s.entries)) [
    | inl e ↦ rw e tt
    | inr (a, e) ↦ rw e e
  ]

  touched-Keeps :
      (n : Text) (a now : ℕ) (h : H) (s : SolutionRegistry H)
      → HashMap.get n s.entries ≡ some a
      → (s.heap a).handle ≡ some h
      → IsCalm s
      → Keeps s (finished n h, touch a now s)
  touched-Keeps n a now h s e f c = record {
    calm = touch-IsCalm a now s c;
    grows = touch-Grows a now s;
    knows = (a, unfold touch in e, handle-touch a now s a ∙ f);
  }

  read_handle_empty :
      (config : SolutionRegistryConfig) (now : ℕ) (ping : Bool) (a : ℕ) (s : SolutionRegistry H)
      → (s.heap a).handle ≡ none
      → read_handle config now ping a s ≡ (none, s)
  unfolding read_handle
  read_handle_empty config now ping a s f = ground arith

  -- With a healthy connection a handle that is there is the answer.
  read_handle_live :
      (config : SolutionRegistryConfig) (now : ℕ) (a : ℕ) (s : SolutionRegistry H) (h : H)
      → (s.heap a).handle ≡ some h
      → read_handle config now true a s ≡ (some h, touch a now s)
  unfolding read_handle
  read_handle_live config now a s h f = ground arith

  read_handle-Keeps :
      (config : SolutionRegistryConfig) (now : ℕ) (n : Text) (a : ℕ) (s : SolutionRegistry H)
      → HashMap.get n s.entries ≡ some a
      → IsCalm s
      → Keeps s (after_read n a (read_handle config now true a s))
  read_handle-Keeps config now n a s e c = elim (Option-cases (s.heap a).handle) [
    | inl f ↦
        rw (read_handle_empty config now true a s f)
          (record { calm = c; grows = Grows-refl s; knows = e })
    | inr (h, f) ↦ rw (read_handle_live config now a s h f) (touched-Keeps n a now h s e f c)
  ]

  rebuild_empty :
      (now : ℕ) (ping : Bool) (build : Text → Result H) (n : Text) (a : ℕ) (s : SolutionRegistry H)
      → (s.heap a).handle ≡ none
      → rebuild now ping build n a s ≡ store_handle a (build n) s
  unfolding rebuild
  rebuild_empty now ping build n a s f = ground arith

  rebuild_live :
      (now : ℕ) (build : Text → Result H) (n : Text) (a : ℕ) (s : SolutionRegistry H) (h : H)
      → (s.heap a).handle ≡ some h
      → rebuild now true build n a s ≡ (kept h, touch a now s)
  unfolding rebuild
  rebuild_live now build n a s h f = ground arith

  store_handle-Keeps :
      (n : Text) (a : ℕ) (r : Result H) (s : SolutionRegistry H)
      → HashMap.get n s.entries ≡ some a
      → (s.heap a).handle ≡ none
      → IsCalm s
      → Keeps s (after_rebuild n a (store_handle a r s))
  store_handle-Keeps n a (err x) s e f c = record { calm = c; grows = Grows-refl s; knows = tt }
  store_handle-Keeps n a (ok h) s e f c = record {
    calm = store_handle-IsCalm a h s (c.in_use n a e) f c;
    grows = store_handle-Grows a h s f;
    knows = (e, handle-store_handle a h s);
  }

  rebuild-Keeps :
      (now : ℕ) (build : Text → Result H) (n : Text) (a : ℕ) (s : SolutionRegistry H)
      → HashMap.get n s.entries ≡ some a
      → IsCalm s
      → Keeps s (after_rebuild n a (rebuild now true build n a s))
  rebuild-Keeps now build n a s e c = elim (Option-cases (s.heap a).handle) [
    | inl f ↦ rw (rebuild_empty now true build n a s f) (store_handle-Keeps n a (build n) s e f c)
    | inr (h, f) ↦ rw (rebuild_live now build n a s h f) (touched-Keeps n a now h s e f c)
  ]

  advance-Keeps :
      (config : SolutionRegistryConfig) (m : Moment H) (t : Task H) (s : SolutionRegistry H)
      → m.ping ≡ true
      → IsCalm s
      → Knows s t
      → Keeps s (advance config m t s)
  unfolding advance
  advance-Keeps config m (looking n) s p c k = record {
    calm = c;
    grows = Grows-refl s;
    knows = after_lookup-Knows n s;
  }
  advance-Keeps config m (missing n) s p c k = insert_entry-Keeps config m.now n s c
  advance-Keeps config m (holding n a) s p c k = rw p (read_handle-Keeps config m.now n a s k c)
  advance-Keeps config m (stale n a) s p c k = rw p (rebuild-Keeps m.now m.build_handle n a s k c)
  advance-Keeps config m (touching n a h) s p c (e, f) = touched-Keeps n a m.now h s e f c
  advance-Keeps config m (finished n h) s p c k = record {
    calm = c;
    grows = Grows-refl s;
    knows = k;
  }
  advance-Keeps config m (failed n e) s p c k = record {
    calm = c;
    grows = Grows-refl s;
    knows = tt;
  }

  All-Grows :
      {s t : SolutionRegistry H} (ks : List (Task H))
      → Grows s t
      → All (Knows s) ks
      → All (Knows t) ks
  All-Grows [] g h = tt
  All-Grows (k ∷ ks) g (h, hs) = (Knows-Grows k g h, All-Grows ks g hs)

  pub move-Keeps :
      (config : SolutionRegistryConfig) (m : Moment H) (i : ℕ) (ts : List (Task H))
      (s : SolutionRegistry H)
      → m.ping ≡ true
      → IsCalm s
      → All (Knows s) ts
      → let moved = move config m i ts s in
        IsCalm moved.1 × Grows s moved.1 × All (Knows moved.1) moved.0
  unfolding move
  move-Keeps config m zero [] s p c k = (c, Grows-refl s, tt)
  move-Keeps config m (suc i) [] s p c k = (c, Grows-refl s, tt)
  move-Keeps config m zero (t ∷ ts) s p c (k, ks) =
      let kept = advance-Keeps config m t s p c k in
      (kept.calm, kept.grows, (kept.knows, All-Grows ts kept.grows ks))
  move-Keeps config m (suc i) (t ∷ ts) s p c (k, ks) =
      let (c', g, ks') = move-Keeps config m i ts s p c ks in (c', g, (Knows-Grows t g k, ks'))

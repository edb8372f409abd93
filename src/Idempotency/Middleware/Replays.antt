-- ===== src/Idempotency/Middleware/Replays.antt =====
-- The middleware over a `MemoryStore`: a client that repeats a request gets the first response, and the
-- wrapped handler does not run again.
use go_libs.Common.{
  ℕ, ◌≤ℤ◌, ◌≡◌, ◌⊎◌, inl, inr, refl, ◌∙◌, ap, true, false, Option, none, some, String, List, arith,
  pos, lookup, string_discrete, str_eq, Distinct, All, Bool-cases, lookup-delete_self,
  lookup-insert_self,
}
use go_libs.Idempotency.{Response, LockResult}
use go_libs.Idempotency.Memory.{
  MemoryStore, lock, save, unlock, lock_key, unlock_key, started, saved, expired,
}
use go_libs.Idempotency.Memory.Calls.{Call, run_calls}
use go_libs.Idempotency.Memory.Locking.{Holds, Spares, lock_held, run_calls-Holds}
use go_libs.Idempotency.Memory.Replay.{
  lock_fresh-Holds, lock_fresh_acquires, lock_excludes, save-Holds,
}
use go_libs.Idempotency.Middleware.{
  Store, MiddlewareOptions, Write, Request, Run, Handled, contains, recorded, run_recorded,
  after_lock, guarded, middleware, not_run, conflict, serve_cached_response,
}

-- A `MemoryStore` as a `Store`; a call reads `ctx.Err()` and the clock.
abbrev pub memory : (E : Type 0) → Store MemoryStore (Option E × ℕ) E
memory E = record {
  lock = λ s c key. lock s c.0 key c.1;
  save = λ s c key response. save s c.0 key response c.1;
  unlock = λ s c key. unlock s c.0 key;
}

-- The request is one that the middleware guards, and `key` is its key.
pub record Keyed (trim_space : String → String) (cfg : MiddlewareOptions) (key : String)
    (r : Request) : Type 0 where
  pub guarded_method : contains r.method cfg.ignored_methods ≡ false
  pub its_key : trim_space (r.header cfg.header_name) ≡ key
  pub given : str_eq key "" ≡ false

module _ (E : Type 0) (bytes : String → List ℕ)
    (header_map : List Write → List (String × List String)) (trim_space : String → String)
    (cfg : MiddlewareOptions) where
  -- The handler at the times `t` and `u`, with a live context.
  abbrev pub handle : Request → Run → ℕ → ℕ → MemoryStore → Handled MemoryStore
  handle r run t u s =
      middleware bytes header_map trim_space (memory E) cfg (none, t) (none, u) r run s

  is_guarded :
      (key : String) (r : Request) (run : Run) (t u : ℕ) (s : MemoryStore)
      → Keyed trim_space cfg key r
      → handle r run t u s ≡ guarded bytes header_map (memory E) cfg (none, t) (none, u) key run s
  unfolding middleware
  is_guarded key r run t u s k = rw (k.guarded_method, middleware, k.its_key) (rw k.given refl)

  guarded_at :
      (key : String) (run : Run) (t u : ℕ) (s s' : MemoryStore) (result : LockResult E)
      → lock {E = E} s none key t ≡ (s', result)
      → guarded bytes header_map (memory E) cfg (none, t) (none, u) key run s
        ≡ after_lock bytes header_map (memory E) cfg (none, u) key run s' result
  unfolding guarded
  guarded_at key run t u s s' result e = rw e refl

  -- While the first caller's handler runs, in a store without a bound on its entries: after its
  -- `Lock` at `t₀` and any calls that neither end that lock nor find it expired, a request with
  -- the same key at `t₁`, when the lock has not expired, gets the conflict response; its handler
  -- does not run, and the store is unchanged.
  concurrent_conflict :
      (s : MemoryStore) (key : String) (r : Request) (run : Run) (t₀ t₁ u₁ : ℕ) (cs : List (Call E))
      → Keyed trim_space cfg key r
      → s.max_entries ≤ℤ pos 0
      → Distinct string_discrete s.records
      → lookup string_discrete key s.records ≡ none
      → All (Spares s key (started t₀)) cs
      → expired s t₁ (started t₀) ≡ false
      → let s₁ : MemoryStore = run_calls (lock {E = E} s none key t₀).0 cs in
        handle r run t₁ u₁ s₁ ≡ not_run s₁ (conflict bytes)
  unfolding after_lock
  concurrent_conflict s key r run t₀ t₁ u₁ cs k u d miss spared live =
      is_guarded key r run t₁ u₁ _ k
      ∙ guarded_at key run t₁ u₁ _ _ _ (lock_excludes E s key t₀ t₁ cs u d miss spared live).1

  pub fresh_runs :
      (key : String) (r : Request) (run : Run) (t u : ℕ) (s : MemoryStore)
      → Keyed trim_space cfg key r
      → lookup string_discrete key s.records ≡ none
      → handle r run t u s
        ≡ run_recorded bytes header_map
            (memory E)
            cfg
            (lock {E = E} s none key t).0
            (none, u)
            key
            run
  unfolding guarded after_lock
  fresh_runs key r run t u s k miss =
      is_guarded key r run t u s k ∙ rw (lock_fresh_acquires E s key t miss) refl

  finished_saves :
      (key : String) (run : Run) (u : ℕ) (s : MemoryStore)
      → run.panicked ≡ false
      → cfg.status_code_matcher (recorded header_map run).status_code ≡ true
      → (run_recorded bytes header_map (memory E) cfg s (none, u) key run).store
        ≡ (save {E = E} s none key (recorded header_map run) u).0
  unfolding run_recorded
  finished_saves key run u s calm good = rw (calm, run_recorded) (rw good refl)

  saved_after-Holds :
      (key : String) (response : Response) (t u : ℕ) (s : MemoryStore)
      → s.max_entries ≤ℤ pos 0
      → Distinct string_discrete s.records
      → lookup string_discrete key s.records ≡ none
      → Holds s key
          (saved response u)
          (save {E = E} (lock {E = E} s none key t).0 none key response u).0
  saved_after-Holds key response t u s bound d miss =
      let h = lock_fresh-Holds E s key t bound d miss in
      let h' = save-Holds E _ key response u h.unbounded h.distinct in
      record {
        lock_ttl = h'.lock_ttl ∙ h.lock_ttl;
        response_ttl = h'.response_ttl ∙ h.response_ttl;
        unbounded = h'.unbounded;
        distinct = h'.distinct;
        held = h'.held;
      }

  -- The repeated request of a key whose handler has run to its end is answered from the store.
  pub served_from_store :
      (s : MemoryStore) (key : String) (r₀ r₁ : Request) (run₀ run₁ : Run) (t₀ u₀ t₁ u₁ : ℕ)
      (cs : List (Call E))
      → Keyed trim_space cfg key r₀
      → Keyed trim_space cfg key r₁
      → s.max_entries ≤ℤ pos 0
      → Distinct string_discrete s.records
      → lookup string_discrete key s.records ≡ none
      → run₀.panicked ≡ false
      → cfg.status_code_matcher (recorded header_map run₀).status_code ≡ true
      → All (Spares s key (saved (recorded header_map run₀) u₀)) cs
      → expired s t₁ (saved (recorded header_map run₀) u₀) ≡ false
      → let s₁ : MemoryStore = run_calls (handle r₀ run₀ t₀ u₀ s).store cs in
        handle r₁ run₁ t₁ u₁ s₁ ≡ not_run s₁ (serve_cached_response (recorded header_map run₀))
  unfolding after_lock lock
  served_from_store s key r₀ r₁ run₀ run₁ t₀ u₀ t₁ u₁ cs k₀ k₁ bound d miss calm good spared live =
      let response = recorded header_map run₀ in
      let stored : Holds s key (saved response u₀) (handle r₀ run₀ t₀ u₀ s).store =
        rw (fresh_runs key r₀ run₀ t₀ u₀ s k₀ miss) (
          rw (finished_saves key run₀ u₀ (lock {E = E} s none key t₀).0 calm good)
            (saved_after-Holds key response t₀ u₀ s bound d miss)) in
      let kept = run_calls-Holds s key (saved response u₀) E _ cs spared stored in
      is_guarded key r₁ run₁ t₁ u₁ _ k₁
      ∙ guarded_at key run₁ t₁ u₁ _ _ _ (lock_held s key (saved response u₀) E _ t₁ live kept)

  locked_lookup :
      (s : MemoryStore) (key : String) (t : ℕ)
      → lookup string_discrete key s.records ≡ none
      → lookup string_discrete key (lock {E = E} s none key t).0.records ≡ some (started t)
  unfolding lock lock_key
  locked_lookup s key t miss = rw (miss, lock_key) (lookup-insert_self string_discrete key _ _)

  unlocked_lookup :
      (s : MemoryStore) (key : String) (t : ℕ)
      → lookup string_discrete key s.records ≡ some (started t)
      → lookup string_discrete key (unlock {E = E} s none key).0.records ≡ none
  unfolding unlock unlock_key
  unlocked_lookup s key t held =
      rw (held, unlock_key) (lookup-delete_self string_discrete key s.records)

  failed_unlocks :
      (key : String) (run : Run) (u : ℕ) (s : MemoryStore)
      → (run.panicked ≡ true)
        ⊎ (cfg.status_code_matcher (recorded header_map run).status_code ≡ false)
      → (run_recorded bytes header_map (memory E) cfg s (none, u) key run).store
        ≡ (unlock {E = E} s none key).0
  unfolding run_recorded
  failed_unlocks key run u s (inl p) = rw (p, run_recorded) refl
  failed_unlocks key run u s (inr bad) = elim (Bool-cases run.panicked) [
    | inl p ↦ rw (p, run_recorded) refl
    | inr calm ↦ rw (calm, run_recorded) (rw bad refl)
  ]

  recorded_ran :
      (key : String) (run : Run) (u : ℕ) (s : MemoryStore)
      → (run_recorded bytes header_map (memory E) cfg s (none, u) key run).ran ≡ true
  unfolding run_recorded
  recorded_ran key run u s = ground arith

  -- A request with a new key whose handler panics or answers with a status that the matcher
  -- refuses leaves no record of the key: the handler has run, and a later request with the
  -- key runs its handler again.
  failed_run_retried :
      (s : MemoryStore) (key : String) (r₀ r₁ : Request) (run₀ run₁ : Run) (t₀ u₀ t₁ u₁ : ℕ)
      → Keyed trim_space cfg key r₀
      → Keyed trim_space cfg key r₁
      → lookup string_discrete key s.records ≡ none
      → (run₀.panicked ≡ true)
        ⊎ (cfg.status_code_matcher (recorded header_map run₀).status_code ≡ false)
      → let s₁ : MemoryStore = (handle r₀ run₀ t₀ u₀ s).store in
        ((handle r₀ run₀ t₀ u₀ s).ran ≡ true)
        × (lookup string_discrete key s₁.records ≡ none)
        × ((handle r₁ run₁ t₁ u₁ s₁).ran ≡ true)
  failed_run_retried s key r₀ r₁ run₀ run₁ t₀ u₀ t₁ u₁ k₀ k₁ miss failed =
      let first = fresh_runs key r₀ run₀ t₀ u₀ s k₀ miss in
      let free : lookup string_discrete key (handle r₀ run₀ t₀ u₀ s).store.records ≡ none =
        rw first (
          rw (failed_unlocks key run₀ u₀ (lock {E = E} s none key t₀).0 failed)
            (unlocked_lookup _ key t₀ (locked_lookup s key t₀ miss))) in
      (
        ap (λ h. h.ran) first ∙ recorded_ran key run₀ u₀ _,
        free,
        ap (λ h. h.ran) (fresh_runs key r₁ run₁ t₁ u₁ _ k₁ free) ∙ recorded_ran key run₁ u₁ _,
      )

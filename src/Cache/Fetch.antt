-- ===== src/Cache/Fetch.antt =====
-- `GetOrFetch` of cache/lru.go and cache/fifo.go, for a caller that shares its flight with no other: then
-- `singleflight.Group.DoChan` runs the function once and hands over what it returned.
use go_libs.Common.{ℕ, Bool, true, false, Option, none, some, ◌⊎◌, inl, inr, String, ℤ}
use go_libs.Cache.Linked.{LinkedBackend}
use go_libs.Cache.Linked.Traces.{Backed}

-- `ctx.Err()` at the start, the clock at `Get`, what the function returns, the clock at `Set`, and
-- `ctx.Err()` if the context ends before the answer.
pub record Flight (T E : Type 0) : Type 0 where
  pub ctx_err : Option E
  pub looked_up : ℕ
  pub returned : T ⊎ E
  pub stored : ℕ
  pub ended : Option E

abbrev pub unless_ended : {T E : Type 0} → Option E → T ⊎ E → T ⊎ E
unless_ended (some e) answer = inr e
unless_ended none answer = answer

-- The backend, the answer, and whether the function was called.
unfoldable pub fetch_through :
    {S T E : Type 0}
    → (S → String → ℕ → S × Option T)
    → (S → String → T → Option ℤ → ℕ → S)
    → S
    → String
    → ℤ
    → Flight T E
    → S × (T ⊎ E) × Bool
fetch_through get set c key ttl w = elim w.ctx_err [
  | some e ↦ (c, inr e, false)
  | none ↦
      let (c', hit) = get c key w.looked_up in
      elim hit [
        | some v ↦ (c', inl v, false)
        | none ↦ elim w.returned [
          | inr e ↦ (c', unless_ended w.ended (inr e), true)
          | inl v ↦ (set c' key v (some ttl) w.stored, unless_ended w.ended (inl v), true)
        ]
      ]
]

abbrev pub get_or_fetch :
    {T E : Type 0}
    → Backed T
    → LinkedBackend T
    → String
    → ℤ
    → Flight T E
    → LinkedBackend T × (T ⊎ E) × Bool
get_or_fetch b c key ttl w = fetch_through b.get b.set c key ttl w

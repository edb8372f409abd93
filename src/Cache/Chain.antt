-- ===== src/Cache/Chain.antt =====
-- The doubly linked lists of cache/lru.go and cache/fifo.go, where `addToFront` and `removeNode` are the
-- same code. A node is an address in a heap; nil is `none`.
pub mod Links
pub mod Unlink
use go_libs.Common.{
  ◌≡◌, refl, ◌∙◌, arith, inl, inr, Option-cases, ℕ, Bool, ◌==◌, Option, none, some, String,
  if◌then◌else◌,
}

pub record Node (T : Type 0) : Type 0 where
  pub key : String
  pub value : T
  pub expiration : ℕ
  pub prev : Option ℕ
  pub next : Option ℕ

abbrev pub Heap : Type 0 → Type 0
Heap T = ℕ → Node T

-- The heap with the two ends of one list.
pub record Chain (T : Type 0) : Type 0 where
  pub heap : Heap T
  pub head : Option ℕ
  pub tail : Option ℕ

module _ {T : Type 0} where
  -- What a cache reads of a node.
  abbrev pub payload : Node T → String × T × ℕ
  payload n = (n.key, n.value, n.expiration)

  unfoldable pub write : Heap T → ℕ → Node T → Heap T
  write h i n j = if i == j then n else h j

  -- `h[i].prev = p` and `h[i].next = p`.
  abbrev pub set_prev : Heap T → ℕ → Option ℕ → Heap T
  set_prev h i p = write h i (record (h i) { prev = p })

  abbrev pub set_next : Heap T → ℕ → Option ℕ → Heap T
  set_next h i p = write h i (record (h i) { next = p })

  unfoldable pub add_to_front : Chain T → ℕ → Chain T
  add_to_front c i =
      let h = write c.heap i (record (c.heap i) { prev = none; next = c.head }) in
      record {
        heap = elim c.head [ none ↦ h | some j ↦ set_prev h j (some i) ];
        head = some i;
        tail = elim c.tail [ none ↦ some i | some t ↦ some t ];
      }

  -- The first `if` of `removeNode`.
  unfoldable pub skip_next : Chain T → ℕ → Chain T
  skip_next c i = elim (c.heap i).prev [
    | some p ↦ record c { heap = set_next c.heap p (c.heap i).next }
    | none ↦ record c { head = (c.heap i).next }
  ]

  -- The second one.
  unfoldable pub skip_prev : Chain T → ℕ → Chain T
  skip_prev c i = elim (c.heap i).next [
    | some q ↦ record c { heap = set_prev c.heap q (c.heap i).prev }
    | none ↦ record c { tail = (c.heap i).prev }
  ]

  unfoldable pub clear_links : Chain T → ℕ → Chain T
  clear_links c i = record c {
    heap = write c.heap i (record (c.heap i) { prev = none; next = none });
  }

  unfoldable pub remove_node : Chain T → ℕ → Chain T
  remove_node c i = clear_links (skip_prev (skip_next c i) i) i

  pub payload-write :
      (h : Heap T) (i : ℕ) (p q : Option ℕ) (j : ℕ)
      → payload (write h i (record (h i) { prev = p; next = q }) j) ≡ payload (h j)
  unfolding write
  payload-write h i p q j = ground arith

  pub payload-add_to_front :
      (c : Chain T) (i j : ℕ) → payload ((add_to_front c i).heap j) ≡ payload (c.heap j)
  unfolding add_to_front
  payload-add_to_front c i j = elim (Option-cases c.head) [
    | inl e ↦ rw (e, add_to_front) (payload-write c.heap i none c.head j)
    | inr (x, e) ↦
        rw (e, add_to_front) (payload-write _ x (some i) _ j ∙ payload-write c.heap i none c.head j)
  ]

  payload-skip_next :
      (c : Chain T) (i j : ℕ) → payload ((skip_next c i).heap j) ≡ payload (c.heap j)
  unfolding skip_next
  payload-skip_next c i j = elim (Option-cases (c.heap i).prev) [
    | inl e ↦ rw (e, skip_next) refl
    | inr (p, e) ↦ rw (e, skip_next) (payload-write c.heap p _ _ j)
  ]

  payload-skip_prev :
      (c : Chain T) (i j : ℕ) → payload ((skip_prev c i).heap j) ≡ payload (c.heap j)
  unfolding skip_prev
  payload-skip_prev c i j = elim (Option-cases (c.heap i).next) [
    | inl e ↦ rw (e, skip_prev) refl
    | inr (q, e) ↦ rw (e, skip_prev) (payload-write c.heap q _ _ j)
  ]

  pub payload-remove_node :
      (c : Chain T) (i j : ℕ) → payload ((remove_node c i).heap j) ≡ payload (c.heap j)
  unfolding remove_node clear_links
  payload-remove_node c i j =
      payload-write _ i none none j
      ∙ payload-skip_prev (skip_next c i) i j
      ∙ payload-skip_next c i j

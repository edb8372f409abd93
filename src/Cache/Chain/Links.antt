-- ===== src/Cache/Chain/Links.antt =====
-- What a chain of nodes stands for: a list of addresses.
use go_libs.Common.{
  ℕ, ◌≡◌, refl, Bool, true, false, ◌||◌, ◌==◌, Option, none, some, List, [], ◌∷◌, if◌then◌else◌,
  arith, ◌∙◌,
}
use go_libs.Cache.Chain.{Heap, Chain, write, add_to_front}

abbrev pub has : ℕ → List ℕ → Bool
has i [] = false
has i (x ∷ xs) = (x == i) || has i xs

abbrev pub Once : List ℕ → Type 0
Once [] = Unit
Once (x ∷ xs) = (has x xs ≡ false) × Once xs

abbrev pub first : List ℕ → Option ℕ
first [] = none
first (x ∷ xs) = some x

abbrev pub last : Option ℕ → List ℕ → Option ℕ
last p [] = p
last p (x ∷ xs) = last (some x) xs

abbrev pub erase : ℕ → List ℕ → List ℕ
erase i [] = []
erase i (x ∷ xs) = if x == i then xs else x ∷ erase i xs

-- An address of the list, or nil.
abbrev pub within : Option ℕ → List ℕ → Bool
within none xs = false
within (some i) xs = has i xs

-- `o` is the address `i`.
abbrev pub is_at : Option ℕ → ℕ → Bool
is_at none i = false
is_at (some j) i = j == i

pub last-some : (x : ℕ) (xs : List ℕ) → (t : ℕ) × (last (some x) xs ≡ some t)
last-some x [] = (x, refl)
last-some x (y ∷ xs) = last-some y xs

module _ {T : Type 0} where
  -- From `p` on, the links lead through `xs` and back.
  abbrev pub Links : Heap T → Option ℕ → List ℕ → Type 0
  Links h p [] = Unit
  Links h p (x ∷ xs) = ((h x).prev ≡ p) × ((h x).next ≡ first xs) × Links h (some x) xs

  pub record Stands (c : Chain T) (xs : List ℕ) : Type 0 where
    pub links : Links c.heap none xs
    pub once : Once xs
    pub head : c.head ≡ first xs
    pub tail : c.tail ≡ last none xs

  -- The same links at the addresses of `xs`.
  abbrev pub SameLinks : Heap T → Heap T → ℕ → Type 0
  SameLinks h g i = ((g i).prev ≡ (h i).prev) × ((g i).next ≡ (h i).next)

  pub frame :
      (h g : Heap T) (p : Option ℕ) (xs : List ℕ)
      → ((i : ℕ) → has i xs ≡ true → SameLinks h g i)
      → Links h p xs
      → Links g p xs
  frame h g p [] same l = tt
  frame h g p (x ∷ xs) same l =
      let here : SameLinks h g x = same x (ground arith) in
      (here.0 ∙ l.0, here.1 ∙ l.1, frame h g (some x) xs (λ i m. same i (ground (arith, m))) l.2)

  -- The links in front of the node `x`, after `add_to_front`.
  front_at :
      (c : Chain T) (i x j : ℕ)
      → c.head ≡ some x
      → (x == i) ≡ false
      → (((add_to_front c i).heap j).prev
          ≡ (if i == j then none else if x == j then some i else (c.heap j).prev))
        × (((add_to_front c i).heap j).next ≡ (if i == j then some x else (c.heap j).next))
  unfolding add_to_front write
  front_at c i x j e ne = rw e (ground arith)

  front-Links :
      (c : Chain T) (i x : ℕ) (xs : List ℕ)
      → Stands c (x ∷ xs)
      → has i (x ∷ xs) ≡ false
      → Links (add_to_front c i).heap none (i ∷ x ∷ xs)
  front-Links c i x xs s new =
      let at = front_at c i x in
      let ne : (x == i) ≡ false = ground arith in
      let rest : Links (add_to_front c i).heap (some x) xs =
        frame c.heap (add_to_front c i).heap (some x) xs (λ j m. ground (arith, m, at j s.head ne))
          s.links.2 in
      let ati = at i s.head ne in
      let atx = at x s.head ne in
      (ground arith, ground arith, (ground arith, ground (arith, s.links.1), rest))

  front_tail :
      (c : Chain T) (i x : ℕ) (xs : List ℕ)
      → c.tail ≡ last none (x ∷ xs)
      → (add_to_front c i).tail ≡ last none (i ∷ x ∷ xs)
  unfolding add_to_front
  front_tail c i x xs e = let (t, l) = last-some x xs in rw (e, l) refl

  pub add_to_front-Stands :
      (c : Chain T) (i : ℕ) (xs : List ℕ)
      → Stands c xs
      → has i xs ≡ false
      → Stands (add_to_front c i) (i ∷ xs)
  unfolding add_to_front write
  add_to_front-Stands c i [] s new = record {
    links = ground (arith, s.head);
    once = ground arith;
    head = refl;
    tail = ground (arith, s.tail);
  }
  add_to_front-Stands c i (x ∷ xs) s new = record {
    links = front-Links c i x xs s new;
    once = ground arith;
    head = refl;
    tail = front_tail c i x xs s.tail;
  }

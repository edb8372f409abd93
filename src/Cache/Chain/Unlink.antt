-- ===== src/Cache/Chain/Unlink.antt =====
-- `removeNode` takes one address out of the list that a chain stands for.
use go_libs.Common.{
  ℕ, ◌≡◌, refl, sym, true, false, ◌==◌, Option, none, some, List, [], ◌∷◌, if◌then◌else◌, arith,
  ◌∙◌, inl, inr, Bool-cases, Option-cases, subst,
}
use go_libs.Cache.Chain.{Heap, Chain, write, skip_next, skip_prev, clear_links, remove_node}
use go_libs.Cache.Chain.Links.{has, Once, first, last, erase, within, is_at, Links, Stands, frame}

abbrev pub or_else : Option ℕ → Option ℕ → Option ℕ → Option ℕ
or_else none a b = a
or_else (some i) a b = b

-- An address outside is not `o`.
not_at :
    (o : Option ℕ) (j : ℕ) (xs : List ℕ) → within o xs ≡ false → has j xs ≡ true → is_at o j ≡ false
not_at none j xs w m = refl
not_at (some k) j xs w m = ground arith

has-erase : (j i : ℕ) (xs : List ℕ) → has j xs ≡ false → has j (erase i xs) ≡ false
has-erase j i [] h = refl
has-erase j i (x ∷ xs) h = ground (arith, has-erase j i xs)

Once-erase : (i : ℕ) (xs : List ℕ) → Once xs → Once (erase i xs)
Once-erase i [] o = tt
Once-erase i (x ∷ xs) o = ground (arith, Once-erase i xs o.1, has-erase x i xs)

module _ {T : Type 0} where
  -- The links of `g` are those of `h` without the node `i`.
  pub record Skips (h g : Heap T) (i : ℕ) : Type 0 where
    pub prev :
        (j : ℕ)
        → (i == j) ≡ false
        → (g j).prev ≡ (if is_at (h i).next j then (h i).prev else (h j).prev)
    pub next :
        (j : ℕ)
        → (i == j) ≡ false
        → (g j).next ≡ (if is_at (h i).prev j then (h i).next else (h j).next)

  record NextDone (c d : Chain T) (i : ℕ) : Type 0 where
    prev : (j : ℕ) → (d.heap j).prev ≡ (c.heap j).prev
    next :
        (j : ℕ)
        → (d.heap j).next ≡ (if is_at (c.heap i).prev j then (c.heap i).next else (c.heap j).next)
    head : d.head ≡ or_else (c.heap i).prev (c.heap i).next c.head
    tail : d.tail ≡ c.tail

  skip_next-NextDone : (c : Chain T) (i : ℕ) → NextDone c (skip_next c i) i
  unfolding skip_next write
  skip_next-NextDone c i = elim (Option-cases (c.heap i).prev) [
    | inl e ↦ record {
      prev = λ j. rw (e, skip_next) refl;
      next = λ j. rw (e, skip_next) refl;
      head = rw (e, skip_next) refl;
      tail = rw (e, skip_next) refl;
    }
    | inr (p, e) ↦ record {
      prev = λ j. rw (e, skip_next) (ground arith);
      next = λ j. rw (e, skip_next) (ground arith);
      head = rw (e, skip_next) refl;
      tail = rw (e, skip_next) refl;
    }
  ]

  record PrevDone (c d : Chain T) (i : ℕ) : Type 0 where
    prev :
        (j : ℕ)
        → (d.heap j).prev ≡ (if is_at (c.heap i).next j then (c.heap i).prev else (c.heap j).prev)
    next : (j : ℕ) → (d.heap j).next ≡ (c.heap j).next
    head : d.head ≡ c.head
    tail : d.tail ≡ or_else (c.heap i).next (c.heap i).prev c.tail

  skip_prev-PrevDone : (c : Chain T) (i : ℕ) → PrevDone c (skip_prev c i) i
  unfolding skip_prev write
  skip_prev-PrevDone c i = elim (Option-cases (c.heap i).next) [
    | inl e ↦ record {
      prev = λ j. rw (e, skip_prev) refl;
      next = λ j. rw (e, skip_prev) refl;
      head = rw (e, skip_prev) refl;
      tail = rw (e, skip_prev) refl;
    }
    | inr (q, e) ↦ record {
      prev = λ j. rw (e, skip_prev) (ground arith);
      next = λ j. rw (e, skip_prev) (ground arith);
      head = rw (e, skip_prev) refl;
      tail = rw (e, skip_prev) refl;
    }
  ]

  remove_node-Skips :
      (c : Chain T) (i : ℕ)
      → is_at (c.heap i).prev i ≡ false
      → is_at (c.heap i).next i ≡ false
      → Skips c.heap (remove_node c i).heap i
        × ((remove_node c i).head ≡ or_else (c.heap i).prev (c.heap i).next c.head)
        × ((remove_node c i).tail ≡ or_else (c.heap i).next (c.heap i).prev c.tail)
  unfolding remove_node clear_links write
  remove_node-Skips c i a b =
      let u = skip_next-NextDone c i in
      let v = skip_prev-PrevDone (skip_next c i) i in
      let here : ((skip_next c i).heap i).next ≡ (c.heap i).next = u.next i ∙ rw a refl in
      (
        record {
          prev = λ j ne. rw ne (v.prev j ∙ rw (here, u.prev i, u.prev j) refl);
          next = λ j ne. rw ne (v.next j ∙ u.next j);
        },
        v.head ∙ u.head,
        v.tail ∙ rw (here, u.prev i, u.tail) refl,
      )

  -- No link leads from a node of `xs` to an address outside.
  next_inside :
      (h : Heap T) (p : Option ℕ) (xs : List ℕ) (i x : ℕ)
      → Links h p xs
      → has i xs ≡ true
      → has x xs ≡ false
      → is_at (h i).next x ≡ false
  next_inside h p [] i x l m o = cc
  next_inside h p (y ∷ []) i x l m o = ground arith
  next_inside h p (y ∷ z ∷ zs) i x l m o = ground (arith, next_inside h (some y) (z ∷ zs) i x l.2)

  prev_inside :
      (h : Heap T) (k : ℕ) (xs : List ℕ) (i x : ℕ)
      → Links h (some k) xs
      → has i xs ≡ true
      → has x (k ∷ xs) ≡ false
      → is_at (h i).prev x ≡ false
  prev_inside h k [] i x l m o = cc
  prev_inside h k (y ∷ ys) i x l m o = ground (arith, prev_inside h y ys i x l.2)

  prev_there :
      (h : Heap T) (k : ℕ) (xs : List ℕ) (i : ℕ) (a b : Option ℕ)
      → Links h (some k) xs
      → has i xs ≡ true
      → or_else (h i).prev a b ≡ b
  prev_there h k [] i a b l m = cc
  prev_there h k (y ∷ ys) i a b l m = ground (arith, prev_there h y ys i a b l.2)

  last-erase :
      (h : Heap T) (p : Option ℕ) (xs : List ℕ) (i : ℕ)
      → Links h p xs
      → has i xs ≡ true
      → last p (erase i xs) ≡ or_else (h i).next (h i).prev (last p xs)
  last-erase h p [] i l m = cc
  last-erase h p (x ∷ []) i l m = ground arith
  last-erase h p (x ∷ y ∷ ys) i l m = ground (arith, last-erase h (some x) (y ∷ ys) i l.2)

  Links-tail :
      (h g : Heap T) (p : Option ℕ) (i y : ℕ) (ys : List ℕ)
      → Links h p (i ∷ y ∷ ys)
      → Once (i ∷ y ∷ ys)
      → within p (i ∷ y ∷ ys) ≡ false
      → Skips h g i
      → Links g p (y ∷ ys)
  Links-tail h g p i y ys l o w s =
      let py = not_at p y (i ∷ y ∷ ys) w (ground arith) in
      let rest : Links g (some y) ys =
        frame h g (some y) ys
          (λ j m.
            ground (arith, m, s.prev j, s.next j, not_at p j (i ∷ y ∷ ys) w (ground (arith, m))))
          l.2.2 in
      (ground (arith, s.prev y), ground (arith, s.next y, py), rest)

  next-Skips :
      (h g : Heap T) (i x y : ℕ) (ys : List ℕ)
      → Links h (some x) (y ∷ ys)
      → has x (y ∷ ys) ≡ false
      → Once (x ∷ y ∷ ys)
      → (h x).next ≡ some y
      → (x == i) ≡ false
      → has i (y ∷ ys) ≡ true
      → Skips h g i
      → (g x).next ≡ first (erase i (y ∷ ys))
  next-Skips h g i x y ys l out o n ne m s = elim (Bool-cases (y == i)) [
    | inl e ↦ ground (arith, s.next x)
    | inr e ↦ ground (arith, s.next x, prev_inside h y ys i x l.2)
  ]

  Links-erase :
      (h g : Heap T) (p : Option ℕ) (xs : List ℕ) (i : ℕ)
      → Links h p xs
      → Once xs
      → within p xs ≡ false
      → has i xs ≡ true
      → Skips h g i
      → Links g p (erase i xs)
  Links-erase h g p [] i l o w m s = tt
  Links-erase h g p (x ∷ []) i l o w m s = ground arith
  Links-erase h g p (x ∷ y ∷ ys) i l o w m s = elim (Bool-cases (x == i)) [
    | inl e ↦
        let same : i ≡ x = ground arith in
        rw e (Links-tail h g p x y ys l o w (subst (λ k. Skips h g k) same s))
    | inr e ↦
        let inside : has i (y ∷ ys) ≡ true = ground arith in
        let back = next_inside h (some x) (y ∷ ys) i x l.2 inside o.0 in
        rw e (
          ground (arith, s.prev x),
          next-Skips h g i x y ys l.2 o.0 o l.1 e inside s,
          Links-erase h g (some x) (y ∷ ys) i l.2 o.1 o.0 inside s,
        )
  ]

  self-Links :
      (h : Heap T) (p : Option ℕ) (xs : List ℕ) (i : ℕ)
      → Links h p xs
      → Once xs
      → within p xs ≡ false
      → has i xs ≡ true
      → (is_at (h i).prev i ≡ false) × (is_at (h i).next i ≡ false)
  self-Links h p [] i l o w m = cc
  self-Links h p (x ∷ []) i l o w m = ground (arith, not_at p i (x ∷ []) w)
  self-Links h p (x ∷ y ∷ ys) i l o w m =
      ground (arith, not_at p i (x ∷ y ∷ ys) w, self-Links h (some x) (y ∷ ys) i l.2 o.1 o.0)

  first-erase :
      (h : Heap T) (xs : List ℕ) (i : ℕ)
      → Links h none xs
      → has i xs ≡ true
      → first (erase i xs) ≡ or_else (h i).prev (h i).next (first xs)
  first-erase h [] i l m = cc
  first-erase h (x ∷ xs) i l m = ground (arith, prev_there h x xs i (h i).next (some x) l.2)

  -- `removeNode` on an address of the list leaves the list without that address.
  pub remove_node-Stands :
      (c : Chain T) (i : ℕ) (xs : List ℕ)
      → Stands c xs
      → has i xs ≡ true
      → Stands (remove_node c i) (erase i xs)
  remove_node-Stands c i xs s m =
      let (a, b) = self-Links c.heap none xs i s.links s.once refl m in
      let (skips, head, tail) = remove_node-Skips c i a b in
      record {
        links = Links-erase c.heap (remove_node c i).heap none xs i s.links s.once refl m skips;
        once = Once-erase i xs s.once;
        head = head ∙ rw s.head (sym (first-erase c.heap xs i s.links m));
        tail = tail ∙ rw s.tail (sym (last-erase c.heap none xs i s.links m));
      }

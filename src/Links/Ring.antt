-- ===== src/Links/Ring.antt =====
-- The lists of kernel/include/util/list.h against the lists that they stand for.
use avengers.Prelude.{
  ℕ, ◌≡◌, refl, ◌∙◌, Bool, true, false, not, ◌&&◌, ◌||◌, some, List, [], ◌∷◌, ◌++◌, ◌==◌,
  if◌then◌else◌, ok, arith,
}
use avengers.Links.{
  Heap, set_next, set_prev, list_init, list_empty, insert_before, insert_head, insert_tail,
}

abbrev pub mem : ℕ → List ℕ → Bool
mem a [] = false
mem a (x ∷ xs) = a == x || mem a xs

abbrev pub distinct : List ℕ → Bool
distinct [] = true
distinct (x ∷ xs) = not (mem x xs) && distinct xs

-- The links from one to another, in order, with the pointers between them both ways.
unfoldable pub Chain : Heap → ℕ → List ℕ → ℕ → Type 0
Chain h a [] b = (h.next a ≡ some b) × (h.prev b ≡ some a)
Chain h a (x ∷ xs) b = (h.next a ≡ some x) × (h.prev x ≡ some a) × Chain h x xs b

-- A list with its links in order.
pub record IsRing (h : Heap) (l : ℕ) (xs : List ℕ) : Type 0 where
  pub chain : Chain h l xs l
  pub apart : distinct (l ∷ xs) ≡ true

unfoldable pub last_of : ℕ → List ℕ → ℕ
last_of a [] = a
last_of a (x ∷ xs) = last_of x xs

last-mem : (a : ℕ) (xs : List ℕ) → (last_of a xs == a || mem (last_of a xs) xs) ≡ true
unfolding last_of
last-mem a [] = ground arith
last-mem a (x ∷ xs) = ground (arith, last-mem x xs)

-- A link of a list is another than one that is not on it.
pub other : (c a : ℕ) (xs : List ℕ) → mem c xs ≡ true → mem a xs ≡ false → c == a ≡ false
other c a [] m n = cc
other c a (x ∷ xs) m n = ground (arith, other c a xs)

first_not : (new a : ℕ) (xs : List ℕ) → mem new (a ∷ xs) ≡ false → new == a ≡ false
first_not new a xs m = ground arith

pub not_last : (new a : ℕ) (xs : List ℕ) → mem new (a ∷ xs) ≡ false → new == last_of a xs ≡ false
unfolding last_of
not_last new a [] m = ground arith
not_last new a (x ∷ xs) m = not_last new x xs (ground arith)

prev-last : (h : Heap) (a b : ℕ) (xs : List ℕ) → Chain h a xs b → h.prev b ≡ some (last_of a xs)
unfolding Chain last_of
prev-last h a b [] c = c.1
prev-last h a b (x ∷ xs) c = prev-last h x b xs c.2

-- Pointers may change outside a chain.
pub Chain-frame :
    (h h' : Heap) (a b : ℕ) (xs : List ℕ)
    → ((c : ℕ) → (c == a || mem c xs) ≡ true → h'.next c ≡ h.next c)
    → ((c : ℕ) → (c == b || mem c xs) ≡ true → h'.prev c ≡ h.prev c)
    → Chain h a xs b
    → Chain h' a xs b
unfolding Chain
Chain-frame h h' a b [] n p c = (n a (ground arith) ∙ c.0, p b (ground arith) ∙ c.1)
Chain-frame h h' a b (x ∷ xs) n p c = (
  n a (ground arith) ∙ c.0,
  p x (ground arith) ∙ c.1,
  Chain-frame h h' x b xs (λ d m. n d (ground arith)) (λ d m. p d (ground arith)) c.2,
)

-- A chain that is cut after its last link goes on with a new one.
Chain-extend :
    (h h' : Heap) (a b new : ℕ) (xs : List ℕ)
    → distinct (a ∷ xs) ≡ true
    → mem b xs ≡ false
    → (new == a || mem new xs) ≡ false
    → new == b ≡ false
    → Chain h a xs b
    → ((c : ℕ)
        → h'.next c
          ≡ (if c == last_of a xs then some new else if c == new then some b else h.next c))
    → ((c : ℕ)
        → h'.prev c
          ≡ (if c == b then some new else if c == new then some (last_of a xs) else h.prev c))
    → Chain h' a (xs ++ (new ∷ [])) b
unfolding Chain last_of
Chain-extend h h' a b new [] d o f g c n p =
    (ground (arith, n a), ground (arith, p new), (ground (arith, n new), ground (arith, p b)))
Chain-extend h h' a b new (x ∷ xs) d o f g c n p = (
  ground (arith, n a, c.0, last-mem x xs),
  ground (arith, p x, c.1),
  Chain-extend h h' x b new xs (ground arith) (ground arith) (ground arith) g c.2 n p,
)

pub mem-append : (a : ℕ) (xs ys : List ℕ) → mem a (xs ++ ys) ≡ (mem a xs || mem a ys)
mem-append a [] ys = refl
mem-append a (x ∷ xs) ys = ground (arith, mem-append a xs ys)

distinct-append_one :
    (new : ℕ) (xs : List ℕ)
    → distinct xs ≡ true
    → mem new xs ≡ false
    → distinct (xs ++ (new ∷ [])) ≡ true
distinct-append_one new [] d m = refl
distinct-append_one new (x ∷ xs) d m =
    ground (arith, mem-append x xs (new ∷ []), distinct-append_one new xs)

-- list_init makes an empty list, which list_empty finds empty.
list_init-IsRing :
    (h : Heap) (l : ℕ) → IsRing (list_init h l) l [] × (list_empty (list_init h l) l ≡ true)
unfolding list_init list_empty Chain
list_init-IsRing h l = (record { chain = (ground arith, ground arith); apart = refl }, ground arith)

insert_before-runs :
    (h : Heap) (old new p : ℕ)
    → h.prev old ≡ some p
    → new == old ≡ false
    → new == p ≡ false
    → (h' : Heap) × (insert_before h old new ≡ ok h')
      × ((c : ℕ)
          → h'.next c ≡ (if c == p then some new else if c == new then some old else h.next c))
      × ((c : ℕ)
          → h'.prev c ≡ (if c == old then some new else if c == new then some p else h.prev c))
unfolding insert_before
insert_before-runs h old new p e a b =
    let h1 = set_next h new (some old) in
    let h2 = set_prev h1 new (h1.prev old) in
    (
      set_prev (set_next h2 p (some new)) old (some new),
      ground (arith, e),
      λ c. ground (arith, e),
      λ c. ground (arith, e),
    )

pub head_apart : (l : ℕ) (xs : List ℕ) → distinct (l ∷ xs) ≡ true → mem l xs ≡ false
head_apart l xs d = ground arith

-- list_insert_tail of a link that is not on the list makes it the last.
pub insert_tail-IsRing :
    (h : Heap) (l new : ℕ) (xs : List ℕ)
    → IsRing h l xs
    → mem new (l ∷ xs) ≡ false
    → (h' : Heap) × (insert_tail h l new ≡ ok h') × IsRing h' l (xs ++ (new ∷ []))
unfolding insert_tail
insert_tail-IsRing h l new xs r m =
    let (h', run, n, p) =
      insert_before-runs h l new (last_of l xs) (prev-last h l l xs r.chain) (first_not new l xs m)
        (not_last new l xs m) in
    (
      h',
      run,
      record {
        chain =
            Chain-extend h h' l l new xs r.apart (head_apart l xs r.apart) m (first_not new l xs m)
              r.chain n p;
        apart = distinct-append_one new (l ∷ xs) r.apart m;
      },
    )

-- list_insert_head of a link that is not on the list makes it the first.
insert_head-IsRing :
    (h : Heap) (l new : ℕ) (xs : List ℕ)
    → IsRing h l xs
    → mem new (l ∷ xs) ≡ false
    → (h' : Heap) × (insert_head h l new ≡ ok h') × IsRing h' l (new ∷ xs)
unfolding insert_head Chain
insert_head-IsRing h l new [] r m =
    let (h', run, n, p) = insert_before-runs h l new l (r.chain.1) (ground arith) (ground arith) in
    (
      h',
      ground (arith, r.chain.0),
      record {
        chain = (
          ground (arith, n l),
          ground (arith, p new),
          (ground (arith, n new), ground (arith, p l)),
        );
        apart = ground (arith, r.apart);
      },
    )
insert_head-IsRing h l new (x ∷ xs) r m =
    let (h', run, n, p) = insert_before-runs h x new l (r.chain.1) (ground arith) (ground arith) in
    (
      h',
      ground (arith, r.chain.0),
      record {
        chain = (
          ground (arith, n l),
          ground (arith, p new),
          (
            ground (arith, n new, r.apart),
            ground (arith, p x),
            Chain-frame h h' x l xs (λ c q. n c ∙ kept_next c q) (λ c q. p c ∙ kept_prev c q)
                (r.chain.2),
          ),
        );
        apart = ground (arith, r.apart);
      },
    )
  where
    kept_next :
        (c : ℕ)
        → (c == x || mem c xs) ≡ true
        → (if c == l then some new else if c == new then some x else h.next c) ≡ h.next c
    kept_next c q = ground (arith, r.apart, other c l (x ∷ xs) q, other c new (x ∷ xs) q)

    kept_prev :
        (c : ℕ)
        → (c == l || mem c xs) ≡ true
        → (if c == x then some new else if c == new then some l else h.prev c) ≡ h.prev c
    kept_prev c q = ground (arith, r.apart, other c x (l ∷ xs) q, other c new (l ∷ xs) q)

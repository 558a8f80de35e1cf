-- ===== src/Links/Gone.antt =====
-- list_remove of kernel/include/util/list.h.
use avengers.Prelude.{
  ℕ, ◌≡◌, refl, true, false, none, some, List, [], ◌∷◌, ◌++◌, ◌==◌, if◌then◌else◌, ok, arith,
}
use avengers.Links.{Heap, list_remove, set_next, set_prev}
use avengers.Links.Ring.{
  mem, distinct, Chain, IsRing, last_of, Chain-frame, other, mem-append, not_last, head_apart,
}

-- the link after a chain's first
abbrev first_of : ℕ → List ℕ → ℕ
first_of b [] = b
first_of b (x ∷ xs) = x

around :
    (h : Heap) (a b x : ℕ) (as' bs : List ℕ)
    → Chain h a (as' ++ (x ∷ bs)) b
    → (h.prev x ≡ some (last_of a as')) × (h.next x ≡ some (first_of b bs))
unfolding Chain last_of
around h a b x [] [] c = (c.1, c.2.0)
around h a b x [] (y ∷ bs) c = (c.1, c.2.0)
around h a b x (z ∷ as') bs c = around h z b x as' bs c.2

split-mem :
    (a x : ℕ) (as' bs : List ℕ)
    → mem a (as' ++ (x ∷ bs)) ≡ false
    → (a == x ≡ false) × (mem a as' ≡ false) × (mem a bs ≡ false)
split-mem a x [] bs m = (ground arith, refl, ground arith)
split-mem a x (y ∷ ys) bs m =
    let (e, f, g) = split-mem a x ys bs (ground arith) in (e, ground arith, g)

not_first : (a b : ℕ) (bs : List ℕ) → mem a bs ≡ false → a == b ≡ false → a == first_of b bs ≡ false
not_first a b [] m e = e
not_first a b (x ∷ bs) m e = ground arith

swap_== : (a b : ℕ) → a == b ≡ false → b == a ≡ false
swap_== a b h = ground arith

-- A chain without one of its links, once the pointers pass it by.
Chain-drop :
    (h h' : Heap) (a b x : ℕ) (as' bs : List ℕ)
    → distinct (a ∷ (as' ++ (x ∷ bs))) ≡ true
    → mem b (as' ++ (x ∷ bs)) ≡ false
    → Chain h a (as' ++ (x ∷ bs)) b
    → ((c : ℕ)
        → h'.next c ≡ (
            if c == x then none else if c == last_of a as' then some (first_of b bs) else h.next c))
    → ((c : ℕ)
        → h'.prev c ≡ (
            if c == x then none else if c == first_of b bs then some (last_of a as') else h.prev c))
    → Chain h' a (as' ++ bs) b
unfolding Chain last_of
Chain-drop h h' a b x [] [] d o c n p = (ground (arith, n a), ground (arith, p b))
Chain-drop h h' a b x [] (y ∷ bs) d o c n p = (
  ground (arith, n a),
  ground (arith, p y),
  Chain-frame h h' y b bs (λ e q. ground (arith, n e, other e x (y ∷ bs) q, other e a (y ∷ bs) q))
      (λ e q. ground (arith, p e, other e x (b ∷ bs) q, other e y (b ∷ bs) q)) c.2.2,
)
Chain-drop h h' a b x (z ∷ as') bs d o c n p =
    let (a_x, a_as, a_bs) = split-mem a x (z ∷ as') bs (ground arith) in
    let (z_x, z_as, z_bs) = split-mem z x as' bs (ground arith) in
    let z_b : z == b ≡ false = swap_== b z (ground arith) in
    (
      ground (arith, n a, c.0, a_x, not_last a z as' a_as),
      ground (arith, p z, c.1, z_x, not_first z b bs z_bs z_b),
      Chain-drop h h' z b x as' bs (ground arith) (ground arith) c.2 n p,
    )

distinct-drop :
    (x : ℕ) (as' bs : List ℕ) → distinct (as' ++ (x ∷ bs)) ≡ true → distinct (as' ++ bs) ≡ true
distinct-drop x [] bs d = ground arith
distinct-drop x (y ∷ ys) bs d =
    ground (arith, distinct-drop x ys bs, mem-append y ys (x ∷ bs), mem-append y ys bs)

-- list_remove of a link takes it off its list, and the others stay in order.
pub list_remove-IsRing :
    (h : Heap) (l x : ℕ) (as' bs : List ℕ)
    → IsRing h l (as' ++ (x ∷ bs))
    → (h' : Heap) × (list_remove h x ≡ ok h') × IsRing h' l (as' ++ bs)
unfolding list_remove
list_remove-IsRing h l x as' bs r = (
  h',
  ground (arith, before, after),
  record {
    chain =
        Chain-drop h h' l l x as' bs r.apart (head_apart l (as' ++ (x ∷ bs)) r.apart) r.chain
          (λ c. ground arith) (λ c. ground arith);
    apart = distinct-drop x (l ∷ as') bs r.apart;
  },
)
  where
    p : ℕ
    p = last_of l as'

    n : ℕ
    n = first_of l bs

    before : h.prev x ≡ some (last_of l as')
    before = (around h l l x as' bs r.chain).0

    after : h.next x ≡ some (first_of l bs)
    after = (around h l l x as' bs r.chain).1

    h' : Heap
    h' = set_next (set_prev (set_prev (set_next h p (some n)) n (some p)) x none) x none

-- ===== src/Pages/Create/Fit.antt =====
-- Groups that `_pagegroup_create` of kernel/mm/page.c makes of whole blocks of the last order
use mathlib.Core.Path.{subst}
use avengers.Prelude.{
  ℕ, zero, suc, ◌+◌, ◌-◌, ◌/◌, ◌%◌, ◌≤◌, ◌<◌, ◌≡◌, refl, sym, ap, ◌∙◌, Bool-cases, eq_of_==, ◌&&◌,
  List, [], ◌∷◌, ◌==◌, ltb, leb, if◌then◌else◌, count, inl, inr, arith,
}
use avengers.Pages.{Group, pages, top, set_list}
use avengers.Pages.Create.{usable_end, fill_small, fill_top, no_bits, group_create}
use avengers.Pages.Align.{IsMultiple}
use avengers.Pages.Blocks.{covered_by, covered, covered-set_list, covered-empty}
use avengers.Pages.Parity.{is_odd}
use avengers.Pages.Valid.{IsAligned, IsBuddy}

even_bits : (npages : ℕ) → npages % 128 ≡ 0 → (k : ℕ) → k < 7 → npages / pages k % 2 ≡ 0
even_bits n e zero h = omega (arith, e)
even_bits n e (suc zero) h = omega (arith, e)
even_bits n e (suc (suc zero)) h = omega (arith, e)
even_bits n e (suc (suc (suc zero))) h = omega (arith, e)
even_bits n e (suc (suc (suc (suc zero)))) h = omega (arith, e)
even_bits n e (suc (suc (suc (suc (suc zero))))) h = omega (arith, e)
even_bits n e (suc (suc (suc (suc (suc (suc zero)))))) h = omega (arith, e)
even_bits n e (suc (suc (suc (suc (suc (suc (suc k))))))) h = absurd (omega (arith, h))

-- Without pages for the small orders, their lists stay empty, and the end where it is.
record IsBlank (g : Group) (e : ℕ) (r : Group × ℕ) : Type 0 where
  ends : r.1 ≡ e
  lists : (k : ℕ) → r.0.freelist k ≡ []
  bases : r.0.base ≡ g.base
  limits : r.0.end_page ≡ g.end_page
  maps : (k i : ℕ) → r.0.map k i ≡ g.map k i

fill_small-IsBlank :
    (n order npages e : ℕ) (g : Group)
    → ((k : ℕ) → k < n + order → npages / pages k % 2 ≡ 0)
    → ((k : ℕ) → g.freelist k ≡ [])
    → IsBlank g e (fill_small n order npages e g)
unfolding fill_small
fill_small-IsBlank zero order npages e g even blank = record {
  ends = refl;
  lists = blank;
  bases = refl;
  limits = refl;
  maps = λ k i. refl;
}
fill_small-IsBlank (suc n) order npages e g even blank =
    let here : npages / pages order % 2 ≡ 0 = even order (omega arith) in
    let v =
      fill_small-IsBlank n (suc order) npages e (set_list g order [])
        (λ k h. even k (omega (arith, h))) (λ k. ground (arith, blank k)) in
    record {
      ends = ground (arith, here, v.ends);
      lists = λ k. ground (arith, here, v.lists k);
      bases = ground (arith, here, v.bases);
      limits = ground (arith, here, v.limits);
      maps = λ k i. ground (arith, here, v.maps k i);
    }

-- The blocks of the last order hold each page from the first block to the end once.
fill_top-holds :
    (n current e : ℕ) (xs : List ℕ) (p : ℕ)
    → e ≤ current + n
    → (e - current) % 128 ≡ 0
    → covered_by p 128 (fill_top n current e xs)
      ≡ covered_by p 128 xs + (if leb current p && ltb p e then 1 else 0)
unfolding fill_top
fill_top-holds zero current e xs p h m = ground (arith, h)
fill_top-holds (suc n) current e xs p h m = elim (Bool-cases (ltb current e)) [
  | inl y ↦ ground (
    arith,
    y,
    m,
    fill_top-holds n (current + 128) e (current ∷ xs) p (omega (arith, h)) (ground (arith, y, m)),
  )
  | inr k ↦ ground (arith, k)
]

multiple_cons :
    (base current : ℕ) (xs : List ℕ)
    → (current - base) % 128 ≡ 0
    → ((x : ℕ) → 0 < count x xs → (x - base) % 128 ≡ 0)
    → (x : ℕ) → 0 < count x (current ∷ xs)
    → (x - base) % 128 ≡ 0
multiple_cons base current xs m v x c = elim (Bool-cases (current == x)) [
  | inl y ↦ ap (λ z. (z - base) % 128) (sym (eq_of_== current x y)) ∙ m
  | inr n ↦ v x (ground (arith, n, c))
]

fill_top-multiple :
    (n base current e : ℕ) (xs : List ℕ) (a : ℕ)
    → base ≤ current
    → (current - base) % 128 ≡ 0
    → ((x : ℕ) → 0 < count x xs → (x - base) % 128 ≡ 0)
    → 0 < count a (fill_top n current e xs)
    → (a - base) % 128 ≡ 0
unfolding fill_top
fill_top-multiple zero base current e xs a l m v c = v a c
fill_top-multiple (suc n) base current e xs a l m v c = elim (Bool-cases (ltb current e)) [
  | inl y ↦
      fill_top-multiple n base (current + 128) e (current ∷ xs) a (omega (arith, l))
        (omega (arith, l, m)) (multiple_cons base current xs m v) (ground (arith, y, c))
  | inr k ↦ v a (ground (arith, k, c))
]

module _ (start end_page : ℕ) (some_page : start < usable_end start end_page)
    (whole : (usable_end start end_page - start) % 128 ≡ 0) where
  abbrev e : ℕ
  e = usable_end start end_page

  abbrev blank : Group
  blank = record { base = start; end_page = e; freelist = λ k. []; map = no_bits }

  abbrev r : Group × ℕ
  r = fill_small 7 0 (e - start) e blank

  small : IsBlank blank e r
  small =
      fill_small-IsBlank 7 0 (e - start) e blank
        (λ k h. even_bits (e - start) whole k (omega (arith, h))) (λ k. refl)

  abbrev blocks : List ℕ
  blocks = fill_top (e - start) start r.1 []

  abbrev made : Group
  made = set_list r.0 7 blocks

  group_create-made : group_create start end_page ≡ made
  unfolding group_create
  group_create-made = refl

  lists : (k : ℕ) → k < top → made.freelist k ≡ []
  lists k h = ground (arith, small.lists k, h)

  made-covered : (p : ℕ) → covered made p ≡ (if leb start p && ltb p e then 1 else 0)
  made-covered p = ground (
    arith,
    covered-set_list r.0 7 blocks p,
    covered-empty r.0 p small.lists,
    ap (covered_by p 128) (small.lists 7),
    ap (λ x. covered_by p 128 (fill_top (e - start) start x [])) small.ends,
    fill_top-holds (e - start) start e [] p (omega (arith, some_page)) whole,
  )

  made-IsAligned : IsAligned made
  made-IsAligned o a h c = elim (Bool-cases (o == 7)) [
    | inl y ↦
        let there : 0 < count a (fill_top (e - start) start e []) =
          subst (λ x. 0 < count a (fill_top (e - start) start x [])) small.ends
            (ground (arith, y, c)) in
        let m : (a - start) % 128 ≡ 0 =
          fill_top-multiple (e - start) start start e [] a (omega arith) (omega arith)
            (λ x l. absurd (omega (arith, l))) there in
        subst (λ w. IsMultiple w (a - made.base)) (sym (ap pages (eq_of_== o 7 y)))
          (omega (arith, m, small.bases))
    | inr n ↦ absurd (ground (arith, n, c, h, ap (count a) (lists o (ground (arith, n, h)))))
  ]

  made-IsBuddy : IsBuddy made
  made-IsBuddy = record {
    aligned = made-IsAligned;
    parity =
        λ o i h. small.maps (suc o) i ∙ sym (ap (is_odd made.base (pages (suc o)) i) (lists o h));
    once = λ p. ground (arith, made-covered p);
    inside = λ p c. ground (arith, made-covered p, c, small.bases, small.limits);
  }

  -- If the pages that the bit maps leave are a multiple of 128, and not none, then the new group is
  -- valid, and its free pages are these pages, each in one block.
  pub group_create-IsBuddy :
      IsBuddy (group_create start end_page)
      × ((p : ℕ)
          → covered (group_create start end_page) p
            ≡ (if leb start p && ltb p (usable_end start end_page) then 1 else 0))
  group_create-IsBuddy =
      subst (λ g. IsBuddy g × ((p : ℕ) → covered g p ≡ (if leb start p && ltb p e then 1 else 0)))
        (sym group_create-made) (made-IsBuddy, made-covered)

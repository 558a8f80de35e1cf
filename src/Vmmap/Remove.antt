-- ===== src/Vmmap/Remove.antt =====
-- vmmap_remove (kernel/vm/vmmap.c): it ends, and it unmaps the pages of the range and no others.
use native.Mathlib.Decide.{dec_lt}
use avengers.Prelude.{
  ℕ, suc, ◌+◌, ◌-◌, ◌*◌, ◌%◌, ◌≤◌, ◌<◌, ◌≡◌, refl, ap, Bool, true, false, ◌&&◌, none, some, List,
  [], ◌∷◌, ◌++◌, leb, ltb, if◌then◌else◌, length, All, ok, arith, ◌∙◌,
}
use avengers.Vmmap.{
  Vmarea, Slab, RefOp, Walk, Next, word_mod, user_low, user_high, goes_last, place, area_alloc,
  split, visit, on_obj,
}
use avengers.Vmmap.Hits.{Weight, weigh, hits, hits-append}

-- The areas are not empty, end within user memory, and where one starts beyond `hi`, so do all that
-- follow: a sorted map is such, and so is one to whose tail an area that starts at `hi` was put.
abbrev pub IsFit : ℕ → List Vmarea → Type 0
IsFit hi [] = Unit {0}
IsFit hi (v ∷ l) =
    (v.start < v.end)
    × (v.end ≤ user_high)
    × (hi < v.start → All (λ u. hi ≤ u.start) l)
    × IsFit hi l

-- the slab allocator never runs out
abbrev pub HasMemory : Slab → Type 0
HasMemory slab = (n : ℕ) → (a : Vmarea) × (slab n ≡ some a)

-- the rounds that an area takes: one, and one more for the part that is split off
abbrev pub rounds : ℕ → ℕ → List Vmarea → ℕ
rounds lo hi [] = 0
rounds lo hi (v ∷ l) = (if ltb v.start lo && ltb hi v.end then 2 else 1) + rounds lo hi l

rounds-append :
    (lo hi : ℕ) (l m : List Vmarea) → rounds lo hi (l ++ m) ≡ rounds lo hi l + rounds lo hi m
rounds-append lo hi [] m = omega arith
rounds-append lo hi (v ∷ l) m = omega (arith, rounds-append lo hi l m)

pub rounds-le : (lo hi : ℕ) (l : List Vmarea) → rounds lo hi l ≤ 2 * length l
rounds-le lo hi [] = omega arith
rounds-le lo hi (v ∷ l) = ground (arith, rounds-le lo hi l)

All-snoc :
    (hi : ℕ) (l : List Vmarea) (a : Vmarea)
    → All (λ u. hi ≤ u.start) l
    → hi ≤ a.start
    → All (λ u. hi ≤ u.start) (l ++ (a ∷ []))
All-snoc hi [] a h p = (p, tt)
All-snoc hi (v ∷ l) a h p = (h.0, All-snoc hi l a h.1 p)

IsFit-snoc :
    (hi : ℕ) (l : List Vmarea) (a : Vmarea)
    → IsFit hi l
    → a.start ≡ hi
    → a.start < a.end
    → a.end ≤ user_high
    → IsFit hi (l ++ (a ∷ []))
IsFit-snoc hi [] a f e p q = (p, q, (λ h. tt), tt)
IsFit-snoc hi (v ∷ l) a f e p q =
    (f.0, f.1, (λ h. All-snoc hi l a (f.2 h) (omega arith)), IsFit-snoc hi l a f.3 e p q)

-- Pages below `hi` are not covered by areas that start at `hi` or above.
hits-above :
    (w : Weight) (vfn hi : ℕ) (l : List Vmarea)
    → vfn < hi
    → All (λ u. hi ≤ u.start) l
    → hits w vfn l ≡ 0
hits-above w vfn hi [] h a = refl
hits-above w vfn hi (v ∷ l) h a = ground (arith, hits-above w vfn hi l h a.1)

-- what a walk leaves of a page: all that lies behind it, and what lies ahead unless it is unmapped
abbrev pub left_of : Weight → ℕ → ℕ → ℕ → Walk → ℕ
left_of w vfn lo hi s =
    hits w vfn s.before + (if leb lo vfn && ltb vfn hi then 0 else hits w vfn s.rest)

module _ (lo hi npages : ℕ) (low : user_low ≤ lo) (some_pages : lo < hi) (high : hi ≤ user_high)
    (no_wrap : hi ≡ lo + npages) (slab : Slab) (map : ℕ) where
  -- what one round of the walk does
  abbrev pub Advanced : Walk → Vmarea → List Vmarea → Next → Type 0
  Advanced s v rest (Next.go s') =
      IsFit hi s'.rest
      × (rounds lo hi s'.rest < rounds lo hi (v ∷ rest))
      × ((w : Weight) (vfn : ℕ)
          → left_of w vfn lo hi s' ≡ left_of w vfn lo hi (record s { rest = v ∷ rest }))
  Advanced s v rest (Next.stop s') =
      (s' ≡ s)
      × ((w : Weight) (vfn : ℕ)
          → hits w vfn (v ∷ rest) ≡ (if leb lo vfn && ltb vfn hi then 0 else hits w vfn (v ∷ rest)))

  -- where the part above the gap is placed
  record Placed (s : Walk) (v : Vmarea) (rest : List Vmarea) (p : Walk) : Type 0 where
    fit : IsFit hi p.rest
    fewer : rounds lo hi p.rest ≤ suc (rounds lo hi rest)
    kept :
        (w : Weight) (vfn : ℕ)
        → left_of w vfn lo hi p ≡ left_of w vfn lo hi (record s { rest = v ∷ rest })

  module _ (s : Walk) (v right : Vmarea) (offset : ℕ) (a : v.start < lo) (b : hi < v.end)
      (ends : v.end ≤ user_high) (at_hi : right.start ≡ hi) (to_end : right.end ≡ v.end)
      (same : (w : Weight) → weigh w right ≡ weigh w v) where
    abbrev left : Vmarea
    left = record v { off = offset; end = lo }

    place-Placed :
        (goes : Bool) (rest : List Vmarea)
        → IsFit hi rest
        → Placed s v rest (place goes s left right rest)
    place-Placed true [] f = record {
      fit = tt;
      fewer = omega arith;
      kept = λ w vfn. ground (arith, same w, hits-append w vfn s.before (left ∷ right ∷ []));
    }
    place-Placed true (u ∷ us) f = record {
      fit = IsFit-snoc hi (u ∷ us) right f at_hi (omega arith) (omega arith);
      fewer = ground (arith, rounds-append lo hi us (right ∷ []));
      kept = λ w vfn. ground (
        arith,
        same w,
        hits-append w vfn s.before (left ∷ []),
        hits-append w vfn us (right ∷ []),
      );
    }
    place-Placed false [] f = record {
      fit = tt;
      fewer = omega arith;
      kept = λ w vfn. ground (arith, same w, hits-append w vfn s.before (left ∷ []));
    }
    place-Placed false (u ∷ us) f = record {
      fit = f;
      fewer = omega arith;
      kept = λ w vfn. ground (arith, same w, hits-append w vfn s.before (left ∷ []));
    }

  module _ (s : Walk) (v : Vmarea) (rest : List Vmarea) (f : IsFit hi (v ∷ rest))
      (memory : HasMemory slab) where
    -- the walk's next step, and what it does
    abbrev pub Visited : Type 0
    Visited = (x : Next) × (visit slab map lo npages s v rest ≡ ok x) × Advanced s v rest x

    wraps : (lo + npages) % word_mod ≡ hi
    wraps = omega arith

    visit_case_1 :
        v.start < lo
        → hi < v.end
        → visit slab map lo npages s v rest
          ≡ split (area_alloc slab s.allocs) map s lo hi npages v rest
    unfolding visit
    visit_case_1 a b = ground (arith, wraps)

    alloc_ok :
        {fresh : Vmarea}
        → slab s.allocs ≡ some fresh
        → area_alloc slab s.allocs ≡ some (record fresh { vmmap = none })
    unfolding area_alloc
    alloc_ok e = ground arith

    split_ok :
        hi < v.end
        → (fresh : Vmarea) → fresh.vmmap ≡ none
        → let right = record fresh {
          start = hi;
          end = v.end;
          obj = v.obj;
          prot = v.prot;
          flags = v.flags;
        } in
          let l = record v { off = (v.off + npages) % word_mod; end = lo } in
          split (some fresh) map s lo hi npages v rest
          ≡ ok (
              Next.go
                (record (place
                  (goes_last (s.before ++ (l ∷ [])) right)
                  s
                  l
                  (record right { vmmap = some map })
                  rest) { allocs = suc s.allocs; refs = s.refs ++ on_obj RefOp.ref v.obj }))
    unfolding split
    split_ok b fresh e = ground (arith, f.1)

    visit_inside : v.start < lo → hi < v.end → Visited
    visit_inside a b =
        let (fresh, e) = memory s.allocs in
        let right = record fresh {
          start = hi;
          end = v.end;
          vmmap = none;
          obj = v.obj;
          prot = v.prot;
          flags = v.flags;
        } in
        let goes =
          goes_last (s.before ++ (record v { off = (v.off + npages) % word_mod; end = lo } ∷ []))
            right in
        let p =
          place-Placed s v (record right { vmmap = some map }) ((v.off + npages) % word_mod) a b f.1
            refl refl (λ w. refl) goes rest f.3 in
        (
          Next.go
              (record (place goes s (record v { off = (v.off + npages) % word_mod; end = lo })
                (record right { vmmap = some map }) rest) {
                  allocs = suc s.allocs;
                  refs = s.refs ++ on_obj RefOp.ref v.obj;
                }),
          visit_case_1 a b
              ∙ ap (λ o. split o map s lo hi npages v rest) (alloc_ok e)
              ∙ split_ok b (record fresh { vmmap = none }) refl,
          (p.fit, ground (arith, p.fewer), p.kept),
        )

    visit_end : v.start < lo → lo ≤ v.end → v.end ≤ hi → Visited
    unfolding visit
    visit_end a b c = (
      Next.go (record s { before = s.before ++ (record v { end = lo } ∷ []); rest = rest }),
      ground (arith, wraps),
      (
        f.3,
        ground arith,
        λ w vfn. ground (arith, hits-append w vfn s.before (record v { end = lo } ∷ [])),
      ),
    )

    visit_start : lo ≤ v.start → v.start ≤ hi → hi < v.end → Visited
    unfolding visit
    visit_start a b c =
        let v' = record v {
          off = (v.off + lo + npages + word_mod - v.start) % word_mod;
          start = hi;
        } in
        (
          Next.go (record s { before = s.before ++ (v' ∷ []); rest = rest }),
          ground (arith, wraps),
          (f.3, ground arith, λ w vfn. ground (arith, hits-append w vfn s.before (v' ∷ []))),
        )

    visit_whole : lo ≤ v.start → v.end ≤ hi → Visited
    unfolding visit
    visit_whole a b = (
      Next.go (record s { rest = rest; refs = s.refs ++ on_obj RefOp.put v.obj }),
      ground (arith, wraps, f.0),
      (f.3, ground arith, λ w vfn. ground arith),
    )

    visit_below : v.end < lo → Visited
    unfolding visit
    visit_below a = (
      Next.go (record s { before = s.before ++ (v ∷ []); rest = rest }),
      ground (arith, wraps, f.0),
      (f.3, ground arith, λ w vfn. ground (arith, hits-append w vfn s.before (v ∷ []))),
    )

    visit_above : hi < v.start → Visited
    unfolding visit
    visit_above a = (
      Next.stop s,
      ground (arith, wraps, f.0),
      (refl, λ w vfn. ground (arith, hits-above w vfn hi rest, f.2 a)),
    )

    pub visit-Visited : Visited
    visit-Visited = elim (dec_lt v.start lo) [
      | yes a ↦ elim (dec_lt hi v.end) [
        | yes b ↦ visit_inside a b
        | no b ↦ elim (dec_lt v.end lo) [
          | yes c ↦ visit_below c
          | no c ↦ visit_end a (omega arith) (omega arith)
        ]
      ]
      | no a ↦ elim (dec_lt hi v.end) [
        | yes b ↦ elim (dec_lt hi v.start) [
          | yes c ↦ visit_above c
          | no c ↦ visit_start (omega arith) (omega arith) b
        ]
        | no b ↦ visit_whole (omega arith) (omega arith)
      ]
    ]

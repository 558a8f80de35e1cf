-- ===== src/Namev/Parts.antt =====
-- The path walk of kernel/fs/namev.c against a walk over the names in the path.
use avengers.Prelude.{
  ℕ, zero, suc, ◌+◌, ◌<◌, ◌≡◌, refl, ap, ◌∙◌, Bool, true, false, Bool-cases, Option-cases, Option,
  none, some, List, [], ◌∷◌, ◌==◌, if◌then◌else◌, length, take, Outcome, ok, panic, waits, astray,
  ◌>>=◌, ◌⊎◌, inl, inr, arith,
}
use avengers.Namev.{
  VnodeOps, Parent, no_parent, at_slash, before_slash, skip_slashes, is_empty, walk, enter, lookup,
  neg, enotdir, after_lookup, start_of, vget_dir, dir_namev,
}

abbrev pub push : ℕ → List (List ℕ) → List (List ℕ)
push c [] = (c ∷ []) ∷ []
push c (p ∷ ps) = (c ∷ p) ∷ ps

-- The names in a path, cut at its runs of slashes, from a slash on or not; no name follows the
-- slashes at the end.
abbrev pub parts : Bool → List ℕ → List (List ℕ)
parts true [] = []
parts false [] = [] ∷ []
parts true (c ∷ cs) =
    let after = parts true cs in let on = push c (parts false cs) in if c == 47 then after else on
parts false (c ∷ cs) =
    let after = parts true cs in
    let on = push c (parts false cs) in if c == 47 then [] ∷ after else on

pub List-cases : (xs : List ℕ) → (xs ≡ []) ⊎ ((c : ℕ) × (cs : List ℕ) × (xs ≡ c ∷ cs))
List-cases [] = inl refl
List-cases (c ∷ cs) = inr (c, cs, refl)

parts-no_slash : (start : List ℕ) → at_slash start ≡ none → parts false start ≡ start ∷ []
parts-no_slash [] h = refl
parts-no_slash (c ∷ cs) h = ground (arith, parts-no_slash cs)

parts-slash :
    (start slashes : List ℕ)
    → at_slash start ≡ some slashes
    → parts false start ≡ before_slash start ∷ parts true slashes
parts-slash [] slashes h = cc
parts-slash (c ∷ cs) slashes h = ground (arith, parts-slash cs slashes)

parts-end : (slashes : List ℕ) → skip_slashes slashes ≡ [] → parts true slashes ≡ []
parts-end [] h = refl
parts-end (c ∷ cs) h = ground (arith, parts-end cs)

skip-not_slash :
    (slashes : List ℕ) (c : ℕ) (cs : List ℕ) → skip_slashes slashes ≡ c ∷ cs → c == 47 ≡ false
skip-not_slash [] c cs h = cc
skip-not_slash (d ∷ ds) c cs h = ground (arith, skip-not_slash ds c cs)

parts-next :
    (slashes : List ℕ) (c : ℕ) (cs : List ℕ)
    → skip_slashes slashes ≡ c ∷ cs
    → parts true slashes ≡ parts false (c ∷ cs)
parts-next [] c cs h = cc
parts-next (d ∷ ds) c cs h = ground (arith, parts-next ds c cs, skip-not_slash ds c cs)

parts-some : (start : List ℕ) → (q : List ℕ) × (qs : List (List ℕ)) × (parts false start ≡ q ∷ qs)
parts-some [] = ([], [], refl)
parts-some (c ∷ cs) = elim (Bool-cases (c == 47)) [
  | inl y ↦ ([], parts true cs, ground arith)
  | inr n ↦ let (q, qs, e) = parts-some cs in (c ∷ q, qs, ground (arith, e))
]

slash_in : (start slashes : List ℕ) → at_slash start ≡ some slashes → is_empty start ≡ false
slash_in [] slashes h = cc
slash_in (c ∷ cs) slashes h = refl

length-skip : (slashes : List ℕ) → length (skip_slashes slashes) < length slashes + 1
length-skip [] = omega arith
length-skip (c ∷ cs) = ground (arith, length-skip cs)

skip-shorter :
    (start slashes : List ℕ)
    → at_slash start ≡ some slashes
    → length (skip_slashes slashes) < length start
skip-shorter [] slashes h = cc
skip-shorter (c ∷ cs) slashes h = ground (arith, skip-shorter cs slashes, length-skip cs)

pub take-before : (start : List ℕ) → take (length (before_slash start)) start ≡ before_slash start
take-before [] = refl
take-before (c ∷ cs) = elim (Bool-cases (c == 47)) [
  | inl y ↦ ground arith
  | inr n ↦ ground (arith, take-before cs)
]

pub take-whole : (start : List ℕ) → take (length start) start ≡ start
take-whole [] = refl
take-whole (c ∷ cs) = ap (λ ds. c ∷ ds) (take-whole cs)

module _ {S : Type 0} (ops : VnodeOps S) where
  -- the directory of one name
  abbrev pub step_into : S → Option ℕ → List ℕ → Outcome (S × ℕ × Option ℕ)
  step_into s none name = panic
  step_into s (some d) name =
      if ops.is_dir s d
      then (ops.find s d name >>= λ r. after_lookup ops d r)
      else ops.vput s d >>= λ s'. ok (s', neg enotdir, none)

  -- The directory that all names but the last lead to, one after the other, and the last name.
  pub resolve : S → Option ℕ → List (List ℕ) → Outcome (S × ℕ × Option ℕ × List ℕ)
  resolve s dir [] = panic
  resolve s dir (p ∷ []) = ok (s, 0, dir, p)
  resolve s dir (p ∷ q ∷ ps) = step_into s dir p >>= λ (s', ret, d). elim d [
    | none ↦ ok (s', ret, none, [])
    | some r ↦ resolve s' (some r) (q ∷ ps)
  ]

  -- The result of the walk, with its last part as the name that its length cuts off.
  abbrev pub named : S × ℕ × Parent → Outcome (S × ℕ × Option ℕ × List ℕ)
  named (s, ret, p) = ok (s, ret, p.dir, take p.namelen p.name)

  enter-step :
      (s : S) (dir : Option ℕ) (start : List ℕ)
      → is_empty start ≡ false
      → enter ops s dir start (length (before_slash start)) ≡ step_into s dir (before_slash start)
  unfolding enter lookup
  enter-step s none start n = refl
  enter-step s (some d) start n = elim (Bool-cases (ops.is_dir s d)) [
    | inl y ↦ ground (arith, take-before start)
    | inr o ↦ ground arith
  ]

  same_rest :
      (o : Outcome (S × ℕ × Option ℕ)) (fuel : ℕ) (rest q : List ℕ) (ps : List (List ℕ))
      → ((s : S) (r : ℕ) → (walk ops fuel s (some r) rest >>= named) ≡ resolve s (some r) (q ∷ ps))
      → ((o >>= λ (s', ret, d). elim d [
        | none ↦ ok (s', ret, no_parent)
        | some r ↦ walk ops fuel s' (some r) rest
      ])
          >>= named)
        ≡ (o >>= λ (s', ret, d). elim d [
          | none ↦ ok (s', ret, none, [])
          | some r ↦ resolve s' (some r) (q ∷ ps)
        ])
  same_rest panic fuel rest q ps h = refl
  same_rest waits fuel rest q ps h = refl
  same_rest astray fuel rest q ps h = refl
  same_rest (ok (s, ret, none)) fuel rest q ps h = refl
  same_rest (ok (s, ret, some r)) fuel rest q ps h = h s r

  walk-resolve :
      (fuel : ℕ) (s : S) (dir : Option ℕ) (start : List ℕ)
      → length start < fuel
      → (walk ops fuel s dir start >>= named) ≡ resolve s dir (parts false start)
  unfolding walk resolve
  walk-resolve zero s dir start h = absurd (omega arith)
  walk-resolve (suc fuel) s dir start h = elim (Option-cases (at_slash start)) [
    | inl z ↦ ground (arith, z, parts-no_slash start z, take-whole start)
    | inr (slashes, z) ↦ elim (List-cases (skip_slashes slashes)) [
      | inl e ↦
          ground (arith, z, e, parts-slash start slashes z, parts-end slashes e, take-before start)
      | inr (c, cs, e) ↦
          let (q, ps, m) = parts-some (c ∷ cs) in
          let cut : parts false start ≡ before_slash start ∷ q ∷ ps =
            parts-slash start slashes z
            ∙ ap (λ w. before_slash start ∷ w) (parts-next slashes c cs e ∙ m) in
          let rest = same_rest (step_into s dir (before_slash start)) fuel (c ∷ cs) q ps (λ s' r.
            walk-resolve fuel s' (some r) (c ∷ cs)
              (omega (arith, h, skip-shorter start slashes z, ap length e))
            ∙ ap (resolve s' (some r)) m) in
          ground (arith, z, e, cut, rest, enter-step s dir start (slash_in start slashes z))
    ]
  ]

  length-start_of :
      (root : ℕ) (cwd base : Option ℕ) (path : List ℕ)
      → length (start_of ops root cwd base path).1 < length path + 1
  unfolding start_of
  length-start_of root cwd base [] = omega arith
  length-start_of root cwd base (c ∷ cs) = ground arith

  walk_after :
      (o : Outcome S) (fuel : ℕ) (dir : Option ℕ) (start : List ℕ)
      → length start < fuel
      → ((o >>= λ s. walk ops fuel s dir start) >>= named)
        ≡ (o >>= λ s. resolve s dir (parts false start))
  walk_after panic fuel dir start h = refl
  walk_after waits fuel dir start h = refl
  walk_after astray fuel dir start h = refl
  walk_after (ok s) fuel dir start h = walk-resolve fuel s dir start h

  -- On every path dir_namev gives the state, the result, the directory and the last name that come
  -- from taking a reference of the vnode it starts from, cutting the path at its runs of slashes and
  -- entering the names before the last one after the other.
  pub dir_namev-resolve :
      (root : ℕ) (cwd base : Option ℕ) (s : S) (path : List ℕ)
      → (dir_namev ops root cwd base s path >>= named) ≡ (
          vget_dir ops s (start_of ops root cwd base path).0 >>= λ s'.
          resolve s'
            (start_of ops root cwd base path).0
            (parts false (start_of ops root cwd base path).1))
  unfolding dir_namev
  dir_namev-resolve root cwd base s path =
      walk_after (vget_dir ops s (start_of ops root cwd base path).0) (length path + 1)
        (start_of ops root cwd base path).0 (start_of ops root cwd base path).1
        (length-start_of root cwd base path)

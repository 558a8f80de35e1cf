-- ===== src/Vmmap/Hits.antt =====
-- A measure of what a map of kernel/vm/vmmap.c does with a page, whatever the order of its areas.
use avengers.Prelude.{
  ℕ, ◌+◌, ◌≡◌, refl, ap, true, false, Option, none, some, List, [], ◌∷◌, ◌++◌, ◌⊎◌, inl, inr,
  Bool-cases, ◌↔◌, if◌then◌else◌, arith, ok,
}
use avengers.Vmmap.{Vmarea, covers, lookup, insert}

-- A weight for an area, by its object, protection and flags: a weight that is 1 at one choice of
-- them and 0 elsewhere counts the areas with these.
abbrev pub Weight : Type 0
Weight = Option ℕ → ℕ → ℕ → ℕ

abbrev pub weigh : Weight → Vmarea → ℕ
weigh w a = w a.obj a.prot a.flags

-- the summed weight of the areas that cover a page
abbrev pub hits : Weight → ℕ → List Vmarea → ℕ
hits w vfn [] = 0
hits w vfn (a ∷ l) = (if covers a vfn then weigh w a else 0) + hits w vfn l

abbrev pub one : Weight
one o p f = 1

pub hits-append :
    (w : Weight) (vfn : ℕ) (l m : List Vmarea) → hits w vfn (l ++ m) ≡ hits w vfn l + hits w vfn m
hits-append w vfn [] m = omega arith
hits-append w vfn (a ∷ l) m = omega (arith, hits-append w vfn l m)

-- A page is unmapped exactly when lookup finds no area.
pub lookup-none_iff : (l : List Vmarea) (vfn : ℕ) → (lookup l vfn ≡ none) ↔ (hits one vfn l ≡ 0)
unfolding lookup
lookup-none_iff [] vfn = (λ h. refl, λ h. refl)
lookup-none_iff (a ∷ l) vfn =
    let r = lookup-none_iff l vfn in (λ h. ground (arith, r), λ h. ground (arith, r))

covers-cases : (a : Vmarea) (vfn : ℕ) → (covers a vfn ≡ true) ⊎ (covers a vfn ≡ false)
covers-cases a vfn = Bool-cases (covers a vfn)

-- What lookup finds covers the page, and no area before it in the list does.
lookup-some :
    (l : List Vmarea) (vfn : ℕ) {a : Vmarea}
    → lookup l vfn ≡ some a
    → (before : List Vmarea) × (after : List Vmarea) × (l ≡ before ++ (a ∷ after))
      × (covers a vfn ≡ true)
      × (hits one vfn before ≡ 0)
unfolding lookup
lookup-some [] vfn e = cc
lookup-some (b ∷ l) vfn {a} e = elim (covers-cases b vfn) [
  | inl c ↦ ([], l, ground arith, ground arith, refl)
  | inr c ↦
      let (before, after, s, t, u) = lookup-some l vfn {a = a} (ground arith) in
      (b ∷ before, after, ap (λ m. b ∷ m) s, t, ground arith)
]

-- An area goes into a map with its pages, and nothing else changes.
pub hits-insert :
    (w : Weight) (vfn map : ℕ) (l : List Vmarea) (a : Vmarea) {l' : List Vmarea}
    → insert map l a ≡ ok l'
    → hits w vfn l' ≡ hits w vfn l + (if covers a vfn then weigh w a else 0)
unfolding insert
hits-insert w vfn map [] a e = ground arith
hits-insert w vfn map (v ∷ l) a e =
    ground (arith, hits-append w vfn (v ∷ l) (record a { vmmap = some map } ∷ []))

-- ===== src/Ramfs/Names/Entries.antt =====
-- The entries of a directory as a map from names, and the links that they count.
use avengers.Prelude.{
  ℕ, zero, suc, ◌+◌, ◌≡◌, refl, ap, inl, inr, Bool, true, false, Bool-cases, Option-cases, not,
  ◌&&◌, none, some, List, [], ◌∷◌, ◌==◌, if◌then◌else◌, get_elem?, set, arith,
}
use avengers.Ramfs.{Entry, dot, dot_dot}
use avengers.Ramfs.Names.{name_match, find_named, find_free, is_free}

name_match_self : (name : List ℕ) → name_match name name ≡ true
name_match_self [] = refl
name_match_self (c ∷ cs) = ground (arith, name_match_self cs)

pub eq_of_name_match : (a b : List ℕ) → name_match a b ≡ true → a ≡ b
eq_of_name_match [] [] h = refl
eq_of_name_match [] (d ∷ ds) h = cc
eq_of_name_match (c ∷ cs) [] h = cc
eq_of_name_match (c ∷ cs) (d ∷ ds) h = ground (arith, eq_of_name_match cs ds)

-- A free entry that is found is at its index, and its name is empty.
pub find_free-get :
    (es : List Entry) (i : ℕ)
    → find_free es ≡ some i
    → (e : Entry) × (get_elem? es i ≡ some e) × (is_free e ≡ true)
unfolding find_free
find_free-get [] i h = cc
find_free-get (e ∷ es) i h = elim (Bool-cases (is_free e)) [
  | inl y ↦ (e, ground arith, y)
  | inr n ↦ elim (Option-cases (find_free es)) [
    | inl z ↦ absurd (ground arith)
    | inr (k, z) ↦ let (e', g, f) = find_free-get es k z in (e', ground arith, f)
  ]
]

-- An entry that is found by its name is at its index, and has the name.
pub find_named-get :
    (es : List Entry) (name : List ℕ) (i ino : ℕ)
    → find_named es name ≡ some (i, ino)
    → (e : Entry) × (get_elem? es i ≡ some e) × (e.ino ≡ ino) × (name_match e.name name ≡ true)
unfolding find_named
find_named-get [] name i ino h = cc
find_named-get (e ∷ es) name i ino h = elim (Bool-cases (name_match e.name name)) [
  | inl y ↦ (e, ground arith, ground arith, y)
  | inr n ↦ elim (Option-cases (find_named es name)) [
    | inl z ↦ absurd (ground arith)
    | inr ((k, x), z) ↦
        let (e', g, f, m) = find_named-get es name k x z in (e', ground arith, ground arith, m)
  ]
]

-- A name that is entered into a free place of a directory without it is found there.
pub find_named-set :
    (es : List Entry) (name : List ℕ) (i ino : ℕ) (e : Entry)
    → get_elem? es i ≡ some e
    → is_free e ≡ true
    → find_named es name ≡ none
    → is_free (record { ino = ino; name = name }) ≡ false
    → find_named (set es i (record { ino = ino; name = name })) name ≡ some (i, ino)
unfolding find_named
find_named-set [] name i ino e g f h n = cc
find_named-set (x ∷ es) name zero ino e g f h n = ground (arith, name_match_self name)
find_named-set (x ∷ es) name (suc i) ino e g f h n = ground (arith, find_named-set es name i ino e)

-- All other names are found as before.
pub find_named-set_ne :
    (es : List Entry) (other : List ℕ) (i : ℕ) (e new : Entry)
    → get_elem? es i ≡ some e
    → name_match e.name other ≡ false
    → name_match new.name other ≡ false
    → find_named (set es i new) other ≡ find_named es other
unfolding find_named
find_named-set_ne [] other i e new g f n = cc
find_named-set_ne (x ∷ es) other zero e new g f n = ground arith
find_named-set_ne (x ∷ es) other (suc i) e new g f n =
    ground (arith, find_named-set_ne es other i e new g f n)

-- what an entry counts for: a link to its inode, unless it is free, "." or ".."
abbrev pub is_link : List ℕ → Bool
is_link [] = false
is_link (c ∷ cs) = not (name_match (c ∷ cs) dot) && not (name_match (c ∷ cs) dot_dot)

abbrev pub one_link : ℕ → Entry → ℕ
one_link x e = if is_link e.name then if e.ino == x then 1 else 0 else 0

abbrev pub links_in : ℕ → List Entry → ℕ
links_in x [] = 0
links_in x (e ∷ es) = one_link x e + links_in x es

pub links_in-set :
    (x i : ℕ) (es : List Entry) (old new : Entry)
    → get_elem? es i ≡ some old
    → links_in x (set es i new) + one_link x old ≡ links_in x es + one_link x new
links_in-set x i [] old new g = cc
links_in-set x zero (e ∷ es) old new g =
    let same : e ≡ old = cc in omega (arith, ap (one_link x) same)
links_in-set x (suc i) (e ∷ es) old new g = omega (arith, links_in-set x i es old new g)

-- ===== src/Ramfs/Data/Listing.antt =====
-- Repeated calls of ramfs_readdir of kernel/fs/ramfs/ramfs.c, as a program that lists a directory
-- makes them, and the entries that they give.
use avengers.Prelude.{
  ℕ, zero, suc, ◌+◌, ◌*◌, ◌/◌, ◌%◌, ◌<◌, ◌≡◌, refl, sym, ap, ◌∙◌, Bool-cases, Option-cases, Option,
  none, some, List, [], ◌∷◌, if◌then◌else◌, length, Outcome, ok, panic, ◌>>=◌, inl, inr, arith,
}
use avengers.Ramfs.{Entry, Ramfs, s_ifdir, dirent_size}
use avengers.Ramfs.Names.{is_free, dir_entries, stored_name}
use avengers.Ramfs.Data.{readdir, next_used, drop_entries, listed}

-- The used entries of a directory, in order.
abbrev pub used_entries : List Entry → List Entry
used_entries [] = []
used_entries (e ∷ es) =
    if is_free e then used_entries es else record e { name = stored_name e.name } ∷ used_entries es

abbrev pub list_step : Option Entry × ℕ → Outcome (List Entry) → Outcome (List Entry)
list_step (none, n) rest = ok []
list_step (some e, n) rest = rest >>= λ es. ok (e ∷ es)

-- The entries that calls of readdir give from an offset on, until one returns 0; the offset grows by
-- each result.
pub list_from : ℕ → Ramfs → ℕ → ℕ → Outcome (List Entry)
list_from zero s dir offset = panic
list_from (suc fuel) s dir offset =
    readdir s dir offset >>= λ r. list_step r (list_from fuel s dir (offset + r.1))

-- What is found, and what is left.
next_used-none : (es : List Entry) → next_used es ≡ none → used_entries es ≡ []
next_used-none [] h = refl
next_used-none (e ∷ es) h = elim (Option-cases (next_used es)) [
  | inl z ↦ ground (arith, next_used-none es z)
  | inr (p, z) ↦ ground arith
]

next_used-some :
    (es : List Entry) (k : ℕ) (e : Entry)
    → next_used es ≡ some (k, e)
    → (used_entries es
        ≡ record e { name = stored_name e.name } ∷ used_entries (drop_entries (suc k) es))
      × (length (drop_entries (suc k) es) < length es)
next_used-some [] k e h = cc
next_used-some (x ∷ es) k e h = elim (Bool-cases (is_free x)) [
  | inr n ↦ (ground arith, ground arith)
  | inl y ↦ elim (Option-cases (next_used es)) [
    | inl z ↦ absurd (ground arith)
    | inr ((l, e'), z) ↦
        let (found, less) = next_used-some es l e' z in
        let here : e' ≡ e = ground arith in
        let at : suc l ≡ k = ground arith in (ground (arith, found), ground arith)
  ]
]

drop-nil : (k : ℕ) → drop_entries k [] ≡ []
drop-nil zero = refl
drop-nil (suc k) = refl

drop-drop :
    (n k : ℕ) (es : List Entry) → drop_entries k (drop_entries n es) ≡ drop_entries (n + k) es
drop-drop zero k es = ap (λ a. drop_entries a es) (omega arith)
drop-drop (suc n) k [] = drop-nil k ∙ sym (drop-nil (suc n + k))
drop-drop (suc n) k (e ∷ es) = drop-drop n k es ∙ ap (λ a. drop_entries a (e ∷ es)) (plus n k)
  where
    plus : (n k : ℕ) → suc (n + k) ≡ suc n + k
    plus n k = omega arith

readdir-at :
    (s : Ramfs) (dir n : ℕ) (es : List Entry)
    → (s.vnode dir).mode ≡ s_ifdir
    → dir_entries s dir ≡ ok es
    → readdir s dir (n * dirent_size) ≡ ok (listed (next_used (drop_entries n es)))
unfolding readdir
readdir-at s dir n es m d =
    let whole : n * dirent_size / dirent_size ≡ n = omega arith in
    let even : n * dirent_size % dirent_size ≡ 0 = omega arith in
    ground (arith, d, m, even, ap (λ a. drop_entries a es) whole)

-- From the place of an entry on, the calls give what is used there.
list_from-at :
    (fuel : ℕ) (s : Ramfs) (dir n : ℕ) (es : List Entry)
    → (s.vnode dir).mode ≡ s_ifdir
    → dir_entries s dir ≡ ok es
    → length (drop_entries n es) < fuel
    → list_from fuel s dir (n * dirent_size) ≡ ok (used_entries (drop_entries n es))
unfolding list_from
list_from-at zero s dir n es m d h = absurd (omega arith)
list_from-at (suc fuel) s dir n es m d h = elim (Option-cases (next_used (drop_entries n es))) [
  | inl z ↦ ground (arith, readdir-at s dir n es m d, next_used-none (drop_entries n es) z)
  | inr ((k, e), z) ↦
      let (found, less) = next_used-some (drop_entries n es) k e z in
      let rest =
        list_from-at fuel s dir (n + suc k) es m d
          (omega (arith, ap length (drop-drop n (suc k) es))) in
      ground (
        arith,
        readdir-at s dir n es m d,
        found,
        ap used_entries (drop-drop n (suc k) es),
        rest,
        ap (list_from fuel s dir) (next_offset k),
      )
]
  where
    next_offset :
        (k : ℕ) → n * dirent_size + (dirent_size + k * dirent_size) ≡ (n + suc k) * dirent_size
    next_offset k = omega arith

-- Calls of ramfs_readdir from offset 0 on, each offset advanced by the result before, reach the
-- result 0 within one call more than the directory has entries, and give its used entries in order.
pub list_from-used :
    (s : Ramfs) (dir : ℕ) (es : List Entry)
    → (s.vnode dir).mode ≡ s_ifdir
    → dir_entries s dir ≡ ok es
    → list_from (length es + 1) s dir 0 ≡ ok (used_entries es)
list_from-used s dir es m d = list_from-at (length es + 1) s dir 0 es m d (omega arith)

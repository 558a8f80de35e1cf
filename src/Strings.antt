-- ===== src/Strings.antt =====
-- Strings (kernel/util/string.c). A pointer is the list of the bytes from it to the end of its
-- memory; an access beyond that end stops the machine. Results that are pointers are offsets from
-- the first argument; numbers are the bit patterns of 32-bit words.
pub mod Copies
pub mod Compared
mod Tests
use avengers.Prelude.{
  ℕ, zero, suc, ◌+◌, ◌-◌, ◌%◌, ◌^◌, Bool, true, false, Option, none, some, List, [], ◌∷◌, ◌==◌, ltb,
  leb, if◌then◌else◌, Outcome, ok, panic, ◌>>=◌,
}

-- the difference of two characters as a signed char
abbrev pub char_diff : ℕ → ℕ → ℕ
char_diff c d = (c + 256 - d) % 256

-- a signed char as an int
abbrev pub int_of_char : ℕ → ℕ
int_of_char r = if ltb r 128 then r else 2 ^ 32 - 256 + r

-- the `repe cmpsb` of memcmp and what it makes of the flags
pub memcmp : List ℕ → List ℕ → ℕ → Outcome ℕ
memcmp cs ct zero = ok 0
memcmp [] ct (suc count) = panic
memcmp (c ∷ cs) [] (suc count) = panic
memcmp (c ∷ cs) (d ∷ ct) (suc count) =
    let rest = memcmp cs ct count in
    if c == d then rest else ok (if leb 128 (char_diff c d) then 2 ^ 32 - 1 else 1)

pub strncmp : List ℕ → List ℕ → ℕ → Outcome ℕ
strncmp cs ct zero = ok 0
strncmp [] ct (suc count) = panic
strncmp (c ∷ cs) [] (suc count) = panic
strncmp (c ∷ cs) (d ∷ ct) (suc count) =
    let rest = strncmp cs ct count in
    if char_diff c d == 0 then if c == 0 then ok 0 else rest else ok (int_of_char (char_diff c d))

pub strcmp : List ℕ → List ℕ → Outcome ℕ
strcmp [] ct = panic
strcmp (c ∷ cs) [] = panic
strcmp (c ∷ cs) (d ∷ ct) =
    let rest = strcmp cs ct in
    if char_diff c d == 0 then if c == 0 then ok 0 else rest else ok (int_of_char (char_diff c d))

-- What strcpy, strncpy and strcat return is the destination after the call.
abbrev pub stored : ℕ → Outcome (List ℕ) → Outcome (List ℕ)
stored c rest = rest >>= λ ds. ok (c ∷ ds)

pub strcpy : List ℕ → List ℕ → Outcome (List ℕ)
strcpy dest [] = panic
strcpy [] (c ∷ src) = panic
strcpy (d ∷ dest) (c ∷ src) =
    let rest = stored c (strcpy dest src) in if c == 0 then ok (0 ∷ dest) else rest

pub strncpy : List ℕ → List ℕ → ℕ → Outcome (List ℕ)
strncpy dest src zero = ok dest
strncpy dest [] (suc count) = panic
strncpy [] (c ∷ src) (suc count) = panic
strncpy (d ∷ dest) (c ∷ src) (suc count) =
    let rest = stored c (strncpy dest src count) in if c == 0 then ok (0 ∷ dest) else rest

pub strnlen : List ℕ → ℕ → Outcome ℕ
strnlen s zero = ok 0
strnlen [] (suc count) = panic
strnlen (c ∷ s) (suc count) =
    let rest = strnlen s count >>= λ n. ok (suc n) in if c == 0 then ok 0 else rest

pub strcat : List ℕ → List ℕ → Outcome (List ℕ)
strcat [] src = panic
strcat (d ∷ dest) src =
    let rest = stored d (strcat dest src) in if d == 0 then strcpy (d ∷ dest) src else rest

pub strlen : List ℕ → Outcome ℕ
strlen [] = panic
strlen (c ∷ s) = let rest = strlen s >>= λ n. ok (suc n) in if c == 0 then ok 0 else rest

abbrev pub one_further : Option ℕ → Option ℕ
one_further none = none
one_further (some n) = some (suc n)

pub strchr : List ℕ → ℕ → Outcome (Option ℕ)
strchr [] c = panic
strchr (x ∷ s) c =
    let rest = strchr s c >>= λ r. ok (one_further r) in
    if x == c % 256 then ok (some 0) else if x == 0 then ok none else rest

abbrev pub last_of : Bool → Option ℕ → Option ℕ
last_of here (some n) = some (suc n)
last_of here none = if here then some 0 else none

pub strrchr : List ℕ → ℕ → Outcome (Option ℕ)
strrchr [] c = panic
strrchr (x ∷ s) c =
    let rest = strrchr s c >>= λ r. ok (last_of (x == c % 256) r) in
    if x == 0 then ok none else rest

-- the loop of strstr; `l1` and `l2` are the lengths left
strstr_loop : List ℕ → ℕ → List ℕ → ℕ → Outcome (Option ℕ)
strstr_loop [] l1 s2 l2 = if leb l2 l1 then panic else ok none
strstr_loop (c ∷ s1) l1 s2 l2 =
    let rest = strstr_loop s1 (l1 - 1) s2 l2 >>= λ r. ok (one_further r) in
    let here = memcmp (c ∷ s1) s2 l2 >>= λ r. if r == 0 then ok (some 0) else rest in
    if leb l2 l1 then here else ok none

pub strstr : List ℕ → List ℕ → Outcome (Option ℕ)
unfolding strstr_loop
strstr s1 s2 =
    strlen s2 >>= λ l2. if l2 == 0 then ok (some 0) else strlen s1 >>= λ l1. strstr_loop s1 l1 s2 l2

-- the inner loop of strpbrk and strspn: is the character in the set, which ends with a null byte?
pub in_set : List ℕ → ℕ → Outcome Bool
in_set [] c = panic
in_set (p ∷ set) c =
    let rest = in_set set c in if p == 0 then ok false else if p == c then ok true else rest

pub strpbrk : List ℕ → List ℕ → Outcome (Option ℕ)
strpbrk [] brkset = panic
strpbrk (c ∷ s) brkset =
    let rest = strpbrk s brkset >>= λ r. ok (one_further r) in
    in_set brkset c >>= λ found. if found then ok (some 0) else if c == 0 then ok none else rest

pub strspn : List ℕ → List ℕ → Outcome ℕ
strspn [] charset = panic
strspn (c ∷ s) charset =
    let rest = strspn s charset >>= λ n. ok (suc n) in
    let more = in_set charset c >>= λ found. if found then rest else ok 0 in
    if c == 0 then ok 0 else more

-- ===== src/Debug.antt =====
-- debug.c: the sorted table of the files whose debug messages are shown. The messages themselves
-- are output. `strcmp` is that of the C library, on strings without their NUL; only the sign of its
-- result is looked at.
pub mod Order
pub mod Search
pub mod Place
pub mod Insert
use Prim.Native.Nat.{Ordering, lt, eq, gt}
use projet_l3_inf_bn_zl_rj_r.Prelude.{
  ℕ, zero, suc, ◌+◌, ◌-◌, ◌/◌, ◌==◌, ltb, if◌then◌else◌, List, [], ◌∷◌, Option, none, some, Bool,
  true, false, ◌&&◌,
}

-- The sign of the result of `strcmp`.
unfoldable pub strcmp : List ℕ → List ℕ → Ordering
strcmp [] [] = eq
strcmp [] (y ∷ t) = lt
strcmp (x ∷ s) [] = gt
strcmp (x ∷ s) (y ∷ t) =
    let rest = strcmp s t in if ltb x y then lt else if ltb y x then gt else rest

abbrev pub is_less : Ordering → Bool
is_less lt = true
is_less eq = false
is_less gt = false

unfoldable pub max_files_number : ℕ
max_files_number = 64

-- `debugged_files` and `nb_debugged_files`.
pub record Files : Type 0 where
  pub debugged_files : ℕ → List ℕ
  pub nb_debugged_files : ℕ

-- The `while` loop of add_debug_to, from `i` on, with `rounds` left of the 64 that its second test
-- allows.
unfoldable pub first_place : ℕ → Files → List ℕ → ℕ → ℕ
first_place zero files name i = i
first_place (suc rounds) files name i =
    let further = first_place rounds files name (i + 1) in
    if ltb i files.nb_debugged_files && is_less (strcmp (files.debugged_files i) name)
    then further
    else i

abbrev pub put_name : (ℕ → List ℕ) → ℕ → List ℕ → ℕ → List ℕ
put_name names i name k = if k == i then name else names k

-- The loop `for (j = nb_debugged_files; j > i; j--)`, with `rounds`, which is `j - i`, left.
unfoldable pub move_up : ℕ → (ℕ → List ℕ) → ℕ → ℕ → List ℕ
move_up zero names i = names
move_up (suc rounds) names i =
    move_up rounds (put_name names (i + suc rounds) (names (i + rounds))) i

-- `none` stands for a write behind the array, which the loop makes at the index 64 when the table is
-- full.
unfoldable pub add_debug_to : Files → List ℕ → Option Files
add_debug_to files name =
    let i = first_place max_files_number files name 0 in
    let n = files.nb_debugged_files in
    if ltb i max_files_number
    then (if ltb i n && ltb (max_files_number - 1) n
        then none
        else some (record {
          debugged_files = put_name (move_up (n - i) files.debugged_files i) i name;
          nb_debugged_files = n + 1;
        }))
    else some files

-- The loop of __is_debugged and the test behind it, on fuel. `end` is `to + 1`, since `to` can be -1.
unfoldable pub search_name : ℕ → Files → List ℕ → ℕ → ℕ → ℕ
search_name zero files name from end = 0
search_name (suc fuel) files name from end =
    let middle = (from + (end - 1)) / 2 in
    let above = search_name fuel files name (middle + 1) end in
    let below = search_name fuel files name from middle in
    if ltb (from + 1) end
    then elim (strcmp (files.debugged_files middle) name) [ lt ↦ above | gt ↦ below | eq ↦ 1 ]
    else if from + 1 == end
    then elim (strcmp (files.debugged_files from) name) [ lt ↦ 0 | gt ↦ 0 | eq ↦ 1 ]
    else 0

-- Each round makes the interval shorter, so that one more unit of fuel than names is enough.
unfoldable pub is_debugged : Files → List ℕ → ℕ
is_debugged files name =
    search_name (files.nb_debugged_files + 1) files name 0 files.nb_debugged_files

-- What __debug_raw_binary prints: `isprint` of the C locale holds of the codes 32 to 126.
unfoldable pub debug_raw_binary : List ℕ → List ℕ
debug_raw_binary [] = []
debug_raw_binary (c ∷ text) = (if ltb 31 c && ltb c 127 then c else b'.') ∷ debug_raw_binary text

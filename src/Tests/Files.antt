-- ===== src/Tests/Files.antt =====
-- The table of debugged files at concrete names.
use projet_l3_inf_bn_zl_rj_r.Prelude.{
  ◌+◌, ◌≡◌, ◌↔◌, ◌⊎◌, [], ◌∷◌, some, none, if◌then◌else◌, ◌==◌, arith, refl,
}
use projet_l3_inf_bn_zl_rj_r.Libc.{codes}
use projet_l3_inf_bn_zl_rj_r.Debug.{
  Files, strcmp, is_less, add_debug_to, is_debugged, max_files_number,
}
use projet_l3_inf_bn_zl_rj_r.Debug.Search.{IsSorted, Lists, is_debugged-Lists}
use projet_l3_inf_bn_zl_rj_r.Debug.Insert.{add_debug_to-is_debugged, add_debug_to_full}

-- Two files.
abbrev two : Files
two = record {
  debugged_files = λ i. if i == 0 then codes "arm.c" else codes "memory.c";
  nb_debugged_files = 2;
}

two-IsSorted : IsSorted two
unfolding strcmp
two-IsSorted i j h inside = ground arith

is_debugged-Lists_example : (is_debugged two (codes "memory.c") ≡ 1) ↔ Lists two (codes "memory.c")
is_debugged-Lists_example = is_debugged-Lists two (codes "memory.c") two-IsSorted

add_debug_to-is_debugged_example :
    (files' : Files) × (add_debug_to two (codes "gdb.c") ≡ some files')
    × IsSorted files'
    × (files'.nb_debugged_files ≡ two.nb_debugged_files + 1)
    × (is_debugged files' (codes "gdb.c") ≡ 1
        ↔ (codes "gdb.c" ≡ codes "gdb.c") ⊎ (is_debugged two (codes "gdb.c") ≡ 1))
unfolding max_files_number
add_debug_to-is_debugged_example =
    add_debug_to-is_debugged two (codes "gdb.c") (codes "gdb.c") two-IsSorted (omega arith)

-- The names of one letter with the codes 0 to 63.
abbrev many : Files
many = record { debugged_files = λ i. i ∷ []; nb_debugged_files = 64 }

many-IsSorted : IsSorted many
unfolding strcmp
many-IsSorted i j h inside = ground arith

add_debug_to_full_example :
    add_debug_to many (5 ∷ [])
    ≡ (if is_less (strcmp (many.debugged_files 63) (5 ∷ [])) then some many else none)
unfolding max_files_number
add_debug_to_full_example = add_debug_to_full many (5 ∷ []) many-IsSorted refl

-- ===== src/Tests/Sessions.antt =====
-- Packets behind each other at concrete inputs.
use projet_l3_inf_bn_zl_rj_r.Prelude.{ℕ, ◌≡◌, refl, Bool, ◌==◌, ◌||◌, List, [], ◌∷◌, ◌++◌, arith}
use projet_l3_inf_bn_zl_rj_r.Libc.{
  codes, c_string, scan_byte_pair, scan_pair, scan_hex, scan_next, skip_spaces, take_sign,
  skip_prefix, scan_digits, is_digit, digit_value, is_space, to_unsigned, behind,
}
use projet_l3_inf_bn_zl_rj_r.Gdb.{Gdb}
use projet_l3_inf_bn_zl_rj_r.Gdb.Replies.{frame}
use projet_l3_inf_bn_zl_rj_r.Gdb.Transfer.{escape, with_bytes, byte_text}
use projet_l3_inf_bn_zl_rj_r.Scanner.{yylex}
use projet_l3_inf_bn_zl_rj_r.Scanner.Session.{yylex-write_read}
use projet_l3_inf_bn_zl_rj_r.Tests.{machine}
use projet_l3_inf_bn_zl_rj_r.Scanner.Requests.{
  Request, set_at_address, clear_at_address, and_rounds, packets,
}
use projet_l3_inf_bn_zl_rj_r.Scanner.Breakpoints.{Leaves, yylex-Leaves}
use projet_l3_inf_bn_zl_rj_r.Tests.Debugger.{table, table_set, table-Refines}

-- The escape, `#` and `$` are escaped.
abbrev special : ℕ → Bool
special b = b == 0x7d || b == 0x23 || b == 0x24

abbrev bytes : List ℕ
bytes = 0x23 ∷ 0x7d ∷ 5 ∷ []

abbrev request_x : List ℕ
request_x = codes "8,3:" ++ escape special bytes

yylex-write_read_example :
    yylex 3 1 machine
      (record { gdb = table; buffer = [] })
      (frame (b'X' ∷ request_x) ++ (frame (b'm' ∷ codes "8,3") ++ []))
    ≡ yylex 1 1 machine
        (record {
          gdb = record table {
            arm = record table.arm { mem = with_bytes table.arm.mem 8 bytes };
            packet = frame (byte_text bytes);
            sent =
                frame (byte_text bytes) ∷ codes "+" ∷ frame (codes "OK") ∷ codes "+" ∷ table.sent;
          };
          buffer = [];
        })
        []
unfolding c_string scan_pair scan_hex scan_next skip_spaces take_sign skip_prefix scan_digits
    is_digit digit_value is_space to_unsigned behind
yylex-write_read_example =
    yylex-write_read 1 1 machine table request_x (codes "8,3") [] bytes _ special 8 refl
      (omega arith) (omega arith) refl (omega arith) (omega arith) refl refl refl (omega arith)
      (omega arith) (omega arith)

-- A breakpoint at 20 is cleared, and one at 8 is set.
abbrev requests : List Request
requests = clear_at_address 20 (codes "0,14,4") ∷ set_at_address 8 (codes "0,8,4") ∷ []

yylex-Leaves_example :
    (gdb' : Gdb) × (yylex
        (and_rounds requests 1)
        1
        machine
        (record { gdb = table; buffer = [] })
        (packets requests [])
      ≡ yylex 1 1 machine (record { gdb = gdb'; buffer = [] }) [])
    × Leaves requests table_set table gdb'
unfolding c_string scan_byte_pair scan_hex scan_next skip_spaces take_sign skip_prefix scan_digits
    is_digit digit_value is_space to_unsigned
yylex-Leaves_example =
    yylex-Leaves requests 1 1 machine table table_set [] refl table-Refines
      ((omega arith, refl), ((omega arith, refl), tt))

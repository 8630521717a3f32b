-- ===== src/Tests/Requests.antt =====
-- The requests of gdb, and the scanner that finds them, at concrete inputs.
use projet_l3_inf_bn_zl_rj_r.Prelude.{
  ◌%◌, ◌<◌, ◌≤◌, ◌≡◌, inr, List, [], ◌∷◌, ◌++◌, none, some, ◌>>=◌, pos, arith, refl,
}
use projet_l3_inf_bn_zl_rj_r.Constants.{end_simulation}
use projet_l3_inf_bn_zl_rj_r.Libc.{
  codes, length, print_hex, hex_digit, c_string, scan_pair, scan_hex, scan_next, skip_spaces,
  take_sign, skip_prefix, scan_digits, is_digit, digit_value, is_space, to_unsigned,
}
use projet_l3_inf_bn_zl_rj_r.Registers.{registers_read, registers_write, registers_get_mode}
use projet_l3_inf_bn_zl_rj_r.Memory.{memory_read_word, gather, load}
use projet_l3_inf_bn_zl_rj_r.Instruction.{arm_step}
use projet_l3_inf_bn_zl_rj_r.Instruction.Step.{fetched, arm_step_end}
use projet_l3_inf_bn_zl_rj_r.Gdb.{Gdb, gdb_init_data}
use projet_l3_inf_bn_zl_rj_r.Gdb.Replies.{frame, checksum, gdb_send_stop_reason}
use projet_l3_inf_bn_zl_rj_r.Gdb.Handlers.{
  cont, read_general_registers, write_general_registers, read_single_register,
  write_single_register, read_memory,
}
use projet_l3_inf_bn_zl_rj_r.Gdb.Analysis.{dispatch, gdb_packet_analysis}
use projet_l3_inf_bn_zl_rj_r.Gdb.Framing.{packet_of, gdb_packet_analysis-altered}
use projet_l3_inf_bn_zl_rj_r.Gdb.Continue.{StopsBehind, stepped, cont-StopsBehind}
use projet_l3_inf_bn_zl_rj_r.Gdb.Search.{IsTable}
use projet_l3_inf_bn_zl_rj_r.Gdb.General.{general_text}
use projet_l3_inf_bn_zl_rj_r.Gdb.General.Reply.{written, read_general_registers-write}
use projet_l3_inf_bn_zl_rj_r.Gdb.Single.{read_single_register-write}
use projet_l3_inf_bn_zl_rj_r.Gdb.Transfer.Requests.{read_memory_room}
use projet_l3_inf_bn_zl_rj_r.Scanner.{Parser, Token, max_error_size, add_character_to_error, yylex}
use projet_l3_inf_bn_zl_rj_r.Scanner.Tokens.{Reads, texts, count, act_all, yylex-act_all}
use projet_l3_inf_bn_zl_rj_r.Scanner.Bounds.{add_character_to_error_lem}
use projet_l3_inf_bn_zl_rj_r.Scanner.Packets.{yylex-frame}
use projet_l3_inf_bn_zl_rj_r.Tests.{machine}
use projet_l3_inf_bn_zl_rj_r.Tests.Control.{ends}
use projet_l3_inf_bn_zl_rj_r.Tests.Debugger.{table}

yylex-frame_example :
    yylex 2 1 machine (record { gdb = table; buffer = [] }) (frame (codes "?") ++ []) ≡ (
      dispatch 1 machine
        (record table { sent = codes "+" ∷ table.sent })
        (codes "?" ++ 0 ∷ print_hex 2 (checksum (codes "?") 0) ++ 0 ∷ [])
      >>= λ gdb'. yylex 1 1 machine (record { gdb = gdb'; buffer = [] }) [])
yylex-frame_example =
    yylex-frame 1 1 machine table (codes "?") [] refl (omega arith, omega arith, tt)

gdb_packet_analysis-altered_example :
    gdb_packet_analysis 1 machine table
      (packet_of (codes "m" ++ b'2' ∷ codes ",4") (checksum (codes "m" ++ b'1' ∷ codes ",4") 0))
    ≡ some (record table { sent = codes "-" ∷ table.sent })
gdb_packet_analysis-altered_example =
    gdb_packet_analysis-altered 1 machine table (codes "m") (codes ",4") (b'1') (b'2') refl
      (omega arith) (omega arith) (omega arith)

-- A connection whose processor fetches SWI 0x123456 next.
abbrev ending : Gdb
ending = gdb_init_data ends (λ i. 0)

one_step : arm_step machine ending.arm ≡ some (pos end_simulation, fetched ends)
unfolding memory_read_word gather load gdb_init_data
one_step = arm_step_end machine ends 0xef123456 refl refl (omega arith) refl refl

ending-IsTable : IsTable ending
unfolding gdb_init_data
ending-IsTable i j h inside = absurd (omega arith)

cont-StopsBehind_example :
    cont 5 machine ending
    ≡ gdb_send_stop_reason (stepped ending (pos end_simulation) (fetched ends))
cont-StopsBehind_example =
    cont-StopsBehind 1 5 machine ending (pos end_simulation) (fetched ends) ending-IsTable
      (omega arith) (StopsBehind.last one_step (inr (λ h. absurd (cc))))

read_general_registers-write_example :
    (write_general_registers machine table (general_text (λ k. k % 16) 0x1f ++ 0 ∷ [])
      >>= read_general_registers)
    ≡ some (record table {
      arm = record table.arm { reg = written (λ k. k % 16) 0x1f table.arm.reg };
      packet = frame (general_text (λ k. k % 16) 0x1f);
      sent = frame (general_text (λ k. k % 16) 0x1f) ∷ frame (codes "OK") ∷ table.sent;
    })
unfolding registers_get_mode
read_general_registers-write_example =
    read_general_registers-write machine table (λ k. k % 16) 0x1f [] refl refl refl
      (λ k. omega arith) (omega arith)

read_single_register-write_example :
    (write_single_register machine table (hex_digit 10 ∷ b'=' ∷ (print_hex 8 5 ++ [])) >>= λ gdb'.
    read_single_register gdb' (hex_digit 10 ∷ 0 ∷ []))
    ≡ some (record table {
      arm = record table.arm {
        reg = registers_write table.arm.reg 10 (registers_get_mode table.arm.reg) 5;
      };
      packet =
          frame (print_hex 8 (registers_read table.arm.reg 0 (registers_get_mode table.arm.reg)));
      sent =
          frame (print_hex 8 (registers_read table.arm.reg 0 (registers_get_mode table.arm.reg)))
          ∷ frame (codes "OK")
          ∷ table.sent;
    })
unfolding registers_get_mode
read_single_register-write_example =
    read_single_register-write machine table 10 5 [] [] refl refl (omega arith) (omega arith)

-- A connection to a processor with the memory of the simulator.
abbrev large : Gdb
large = record table { arm = record table.arm { mem = record { size = 0x8000; cells = λ i. 0 } } }

read_memory_room_example : read_memory machine large (codes "0,7fe" ++ 0 ∷ []) ≡ none
unfolding c_string scan_pair scan_hex scan_next skip_spaces take_sign skip_prefix scan_digits
    is_digit digit_value is_space to_unsigned
read_memory_room_example =
    read_memory_room machine large (codes "0,7fe" ++ 0 ∷ []) 0 2046 refl refl (omega arith)
      (omega arith) (omega arith)

-- An acknowledgement and a character that no rule asks for.
yylex-act_all_example :
    (tokens : List Token) × Reads (codes "+x") tokens
    × (texts tokens ≡ codes "+x")
    × (count tokens ≤ length (codes "+x"))
    × (yylex 3 1 machine (record { gdb = table; buffer = [] }) (codes "+x")
        ≡ act_all 1 machine (record { gdb = table; buffer = [] }) tokens)
yylex-act_all_example =
    yylex-act_all 3 1 machine (record { gdb = table; buffer = [] }) (codes "+x") (omega arith)

add_character_to_error_lem_example :
    (parser' : Parser) × (add_character_to_error
        (record { gdb = table; buffer = codes "ab" })
        (b'c')
      ≡ some parser')
    × (length parser'.buffer < max_error_size)
add_character_to_error_lem_example =
    add_character_to_error_lem (record { gdb = table; buffer = codes "ab" }) (b'c') refl
      (omega arith)

-- ===== src/Scanner/Requests.antt =====
-- Requests that set and clear breakpoints, their packets, and what a set of addresses answers to them.
use projet_l3_inf_bn_zl_rj_r.Prelude.{ℕ, suc, ◌≡◌, ◌==◌, if◌then◌else◌, List, [], ◌∷◌, ◌++◌, some}
use projet_l3_inf_bn_zl_rj_r.Libc.{codes, c_string, scan_byte_pair}
use projet_l3_inf_bn_zl_rj_r.Gdb.AddressSet.{Edit, add, remove, set_edit}
use projet_l3_inf_bn_zl_rj_r.Gdb.Replies.{frame}
use projet_l3_inf_bn_zl_rj_r.Scanner.Packets.{IsPlain}
use projet_l3_inf_bn_zl_rj_r.Scanner.Session.{raw_of}

-- A request Z or z for an address, with the text behind its letter.
pub data Request : Type 0 where
  set_at_address : ℕ → List ℕ → Request
  clear_at_address : ℕ → List ℕ → Request

abbrev pub letter : Request → ℕ
letter (set_at_address x text) = b'Z'
letter (clear_at_address x text) = b'z'

abbrev pub text_of : Request → List ℕ
text_of (set_at_address x text) = text
text_of (clear_at_address x text) = text

abbrev pub address_of : Request → ℕ
address_of (set_at_address x text) = x
address_of (clear_at_address x text) = x

abbrev pub edit_of : Request → Edit
edit_of (set_at_address x text) = add x
edit_of (clear_at_address x text) = remove x

abbrev pub reply_to : Request → ℕ → List ℕ
reply_to (set_at_address x text) answer = if answer == 0 then codes "E04" else codes "OK"
reply_to (clear_at_address x text) answer = if answer == 0 then codes "E05" else codes "OK"

-- The text names a breakpoint of type 0 and the address, and has neither `$` nor `#`.
abbrev pub IsRequest : Request → Type 0
IsRequest q =
    IsPlain (letter q ∷ text_of q)
    × (scan_byte_pair (c_string (raw_of (letter q) (text_of q))) ≡ (some 0, some (address_of q)))

abbrev pub AreRequests : List Request → Type 0
AreRequests [] = Unit
AreRequests (q ∷ qs) = IsRequest q × AreRequests qs

-- The packets of the requests, before the rest of the input.
abbrev pub packets : List Request → List ℕ → List ℕ
packets [] rest = rest
packets (q ∷ qs) rest = frame (letter q ∷ text_of q) ++ packets qs rest

-- A round for each packet.
abbrev pub and_rounds : List Request → ℕ → ℕ
and_rounds [] rounds = rounds
and_rounds (q ∷ qs) rounds = suc (and_rounds qs rounds)

-- What is sent, the last first, and the set behind the requests.
abbrev pub sent_for : List Request → List ℕ → List (List ℕ) → List (List ℕ)
sent_for [] s sent = sent
sent_for (q ∷ qs) s sent =
    let step = set_edit (edit_of q) s in
    sent_for qs step.1 (frame (reply_to q step.0) ∷ codes "+" ∷ sent)

abbrev pub set_for : List Request → List ℕ → List ℕ
set_for [] s = s
set_for (q ∷ qs) s = set_for qs (set_edit (edit_of q) s).1

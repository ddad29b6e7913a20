-- ===== src/Ctl.antt =====
-- `ctl_client_process_message`, `ctl_client_add_message` and `ctl_client_read_op` of
-- src/ctl/client/ctl_client_ops.c: lines of text on the control port.
pub mod Lines
pub mod Commands
use ichatd.Common.{
  ℕ, zero, suc, ◌+◌, ◌-◌, ◌≡◌, refl, Bool, true, false, List, [], ◌∷◌, ◌++◌, Option, none, some,
  Bytes, codes, length, take, leb, eq_bytes, cut_at, if◌then◌else◌,
}
use ichatd.Queue.{buffer_queue_append}
use ichatd.Client.{
  Client, Impl, ctl_server, ichat_server, s2s_server, ctl_client, ichat_client, s2s_client,
}
use ichatd.Server.{Server, find_client, at_client, corrupted}
use ichatd.Input.{Read, failed, eof, got, input_at, set_input}

abbrev pub min : ℕ → ℕ → ℕ
min a b = if leb a b then a else b

-- IS_KW (keyword): strncmp over the bytes that both have.
abbrev pub is_kw : Bytes → Bytes → Bool
is_kw msg keyword =
    let n = min (length msg) (length keyword) in eq_bytes (take n msg) (take n keyword)

abbrev pub help_text : Bytes
help_text =
    codes
      "Command list i understand:\r\nhelp - this message\r\necho <some text> - i'll respond you the same text\r\nexit - close connection\r\nstop - stops server\r\n"

abbrev pub unknown_text : Bytes
unknown_text = codes "unknown command\r\ntry help to get more info\r\n"

abbrev with_message : Bytes → Impl → Impl
with_message msg ctl_server = ctl_server
with_message msg ichat_server = ichat_server
with_message msg s2s_server = s2s_server
with_message msg (ctl_client i) = ctl_client (record i { bo = buffer_queue_append i.bo msg })
with_message msg (ichat_client i) = ichat_client i
with_message msg (s2s_client i) = s2s_client i

-- `ctl_client_add_message`.
abbrev pub ctl_client_add_message : Bytes → Client → Client
ctl_client_add_message msg c = record c { impl = with_message msg c.impl }

-- `ctl_client_process_message`: the response is sent in every case, and is empty for `exit` and
-- `stop`.
unfoldable pub ctl_client_process_message : Server → ℕ → Bytes → Server
ctl_client_process_message s ptr msg =
    if is_kw msg (codes "echo")
    then at_client ptr (ctl_client_add_message msg) s
    else if is_kw msg (codes "help")
    then at_client ptr (ctl_client_add_message help_text) s
    else if is_kw msg (codes "exit")
    then at_client ptr (ctl_client_add_message []) (at_client ptr corrupted s)
    else if is_kw msg (codes "stop")
    then at_client ptr (ctl_client_add_message []) (record s { shutdown = true })
    else at_client ptr (ctl_client_add_message unknown_text) s

abbrev first : Option (Bytes × Bytes) → Option Bytes
first none = none
first (some (line, _)) = some (line ++ 10 ∷ [])

-- The `while` loop over the input buffer `p`: the lines that are processed, and what `s` is at the
-- end. A round takes at least one from `s`.
unfoldable pub read_lines : ℕ → Bytes → ℕ → List Bytes × ℕ
read_lines zero p s = ([], s)
read_lines (suc fuel) p s = elim (first (cut_at 10 (take s p))) [
  | none ↦ ([], s)
  | some line ↦ let (others, left) = read_lines fuel p (s - length line) in (line ∷ others, left)
]

unfoldable pub process_all : Server → ℕ → List Bytes → Server
process_all s ptr [] = s
process_all s ptr (line ∷ others) = process_all (ctl_client_process_message s ptr line) ptr others

-- `ctl_client_read_op`: the first bytes of the buffer stay, as many as `s` says.
unfoldable pub ctl_client_read_op : Server → ℕ → Read → Server
ctl_client_read_op s ptr failed = at_client ptr corrupted s
ctl_client_read_op s ptr eof = at_client ptr corrupted s
ctl_client_read_op s ptr (got bytes) =
    let p = input_at (find_client ptr s.clist) ++ bytes in
    let (lines, left) = read_lines (length p + 1) p (length p) in
    at_client ptr (set_input (take left p)) (process_all (at_client ptr (set_input p) s) ptr lines)

two_commands : read_lines 9 (codes "ab\ncd\n") 6 ≡ (codes "ab\n" ∷ codes "ab\n" ∷ [], 0)
unfolding read_lines cut_at
two_commands = refl

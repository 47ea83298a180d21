-- ===== src/NameServer/Process/Request.antt =====
-- From the bytes of a command to the call of its function, in name_server/process.c.
use mathlib.Core.List.{append-nil, flatten}
use tdss.Common.{
  ℕ, suc, ◌+◌, ◌-◌, ◌%◌, ◌^◌, ◌<◌, ◌≤◌, ◌≡◌, refl, sym, ◌∙◌, ap, Bool, true, false, ◌&&◌, Option,
  none, some, List, [], ◌∷◌, ◌++◌, map, ltb, ◌==◌, arith, lt→ltb, length, length-append, Bytes,
}
use tdss.NameServer.Command.{cmd_list, find_command, run_command}
use mathlib.Core.Path.{subst}
use tdss.NameServer.Process.{
  cmd_word, call_command, request_command, dispatch, call_proc, session_reply_step, request_process,
}
use tdss.NameServer.Session.{
  State, session_begin, session_read, session_write, session_reply, state, Command, Server, Lib,
  NameServerConf, got, Event, content,
}
use tdss.NameServer.Sync.{received, recv_loop}
use tdss.NameServer.Sync.Answer.{recv_loop-chunks}
use tdss.Request.Fields.{Word, cstr-Word}
use tdss.Run.{Run, ok, fault, ◌>>=◌}
use tdss.Strings.{Str, string_zero}
use tdss.Strings.Contents.{IsText, Gives, take-IsText, string_zero-Holds}

-- No byte is a space for the C library.
abbrev pub Unspaced : Lib → Bytes → Type 0
Unspaced lib [] = Unit
Unspaced lib (c ∷ cs) = (lib.is_space c ≡ false) × Unspaced lib cs

space_ends : (b : Bool) (i : ℕ) → b ≡ true → 0 < i → (b && ltb 0 i) ≡ true
space_ends true i e h = lt→ltb 0 i h
space_ends false i e h = cc

goes_on : (b : Bool) (i : ℕ) → b ≡ false → (b && ltb 0 i) ≡ false
goes_on b i e = rw e refl

room_left : (i n : ℕ) → i + suc n ≤ 64 → ltb i 64 ≡ true
room_left i n h = ground arith

pub cmd_word-Unspaced :
    (lib : Lib) (i : ℕ) (word : Bytes) (stop : ℕ) (rest : Bytes)
    → Unspaced lib word
    → lib.is_space stop ≡ true
    → 0 < i + length word
    → i + length word ≤ 64
    → cmd_word lib.is_space i (word ++ stop ∷ rest) ≡ ok (some word)
unfolding cmd_word
cmd_word-Unspaced lib i [] stop rest un space some_read fits =
    rw (space_ends (lib.is_space stop) i space (omega arith), cmd_word) refl
cmd_word-Unspaced lib i (c ∷ word) stop rest (plain, un) space some_read fits =
    rw (goes_on (lib.is_space c) i plain, cmd_word)
      (rw (room_left i (length word) fits) (
        rw (cmd_word-Unspaced lib (suc i) word stop rest un space (omega arith) (omega arith))
          refl))

none_left : (i : ℕ) → 64 ≤ i → ltb i 64 ≡ false
none_left i h = ground arith

-- More than 64 bytes before the first space go outside the array.
cmd_word-overflow :
    (lib : Lib) (i : ℕ) (word : Bytes) (c : ℕ) (rest : Bytes)
    → Unspaced lib word
    → lib.is_space c ≡ false
    → i + length word ≡ 64
    → cmd_word lib.is_space i (word ++ c ∷ rest) ≡ fault
unfolding cmd_word
cmd_word-overflow lib i [] c rest un plain fits =
    rw (goes_on (lib.is_space c) i plain, cmd_word) (rw (none_left i (omega (arith, fits))) refl)
cmd_word-overflow lib i (d ∷ word) c rest (first, un) plain fits =
    rw (goes_on (lib.is_space d) i first, cmd_word)
      (rw (room_left i (length word) (omega (arith, fits)))
        (rw (cmd_word-overflow lib (suc i) word c rest un plain (omega (arith, fits))) refl))

-- The session when it has read the input, and when it has found the command in it.
abbrev pub filled : Server → Str → Server
filled s input = record s {
  session = record s.session { state = session_begin; next = session_begin; input = input };
}

abbrev pub called : Server → Str → Command → Server
called s input command = record s {
  session = record s.session {
    state = session_begin;
    next = session_begin;
    input = input;
    id = s.sid;
    proc = some command;
  };
  sid = (s.sid + 1) % 2 ^ 32;
}

zeros : (n : ℕ) → suc n < 64 → 64 - suc n ≡ suc (62 - n)
zeros n h = omega arith

call_command-Word :
    (lib : Lib) (conf : NameServerConf) (ev : Event) (s : Server) (input : Str) (c : ℕ) (cs : Bytes)
    → Word (c ∷ cs)
    → length (c ∷ cs) < 64
    → call_command lib conf ev (filled s input) (c ∷ cs)
      ≡ run_command
          (find_command lib.libc.same_case (c ∷ cs) cmd_list)
          lib
          conf
          ev
          (called s input (find_command lib.libc.same_case (c ∷ cs) cmd_list))
unfolding call_command
call_command-Word lib conf ev s input c cs word short =
    rw (zeros (length cs) short) (rw (cstr-Word (c ∷ cs) (62 - length cs) word) refl)

not_zero : (n m : ℕ) → n ≡ suc m → (n == 0) ≡ false
not_zero n m e = ground (arith, e)

idle :
    (lib : Lib) (conf : NameServerConf) (ev : Event) (s : Server)
    → s.session.state ≡ session_begin
    → dispatch lib conf ev s ≡ request_command lib conf ev s
unfolding dispatch
idle lib conf ev s e =
    ap
      (λ (t : State). elim t [
        | session_read ↦ call_proc lib conf ev s
        | session_write ↦ call_proc lib conf ev s
        | session_reply ↦ session_reply_step ev s
        | _ ↦ request_command lib conf ev s
      ])
      e

-- What the client sent, in the pieces that the reads give.
pub record Asked (lib : Lib) (ev : Event) (s : Server) (message : Bytes) : Type 0 where
  pub memory : Gives lib.memory
  pub waiting : s.session.state ≡ session_begin
  pub input : length s.session.input.str ≡ s.session.input.size
  pub output : length s.session.output.str ≡ s.session.output.size
  pub chunks : List Bytes
  pub reads : ev.reads ≡ map got chunks
  pub whole : flatten chunks ≡ message

module _ (lib : Lib) (conf : NameServerConf) (ev : Event) (s : Server) where
  reads_input :
      (message : Bytes)
      → Asked lib ev s message
      → length message ≤ 32768
      → (zeroed input : Str) × (string_zero s.session.input ≡ ok zeroed)
        × (recv_loop lib.memory zeroed ev.reads ≡ ok (received input))
        × IsText input message
  unfolding recv_loop
  reads_input message asked bounded =
      let (zeroed, first, (empty, _)) = string_zero-Holds s.session.input asked.input in
      let (input, run, text) =
        recv_loop-chunks lib.memory zeroed [] asked.chunks [] asked.memory empty
          (omega (arith, bounded, ap (λ (l : Bytes). length l) asked.whole)) in
      (
        zeroed,
        input,
        first,
        ap (recv_loop lib.memory zeroed) (asked.reads ∙ sym (append-nil (map got asked.chunks)))
            ∙ run,
        subst (IsText input) asked.whole text,
      )

  word_step :
      (zeroed input : Str) (r : Run (Option Bytes))
      → string_zero s.session.input ≡ ok zeroed
      → recv_loop lib.memory zeroed ev.reads ≡ ok (received input)
      → (input.len == 0) ≡ false
      → cmd_word lib.is_space 0 (content input) ≡ r
      → request_command lib conf ev s ≡ (
          r >>= λ found. elim found [
            | none ↦ ok (state session_begin, filled s input)
            | some word ↦ call_command lib conf ev (filled s input) word
          ])
  unfolding request_command
  word_step zeroed input r first run full word =
      rw (first, request_command) (rw run (rw full (rw word refl)))

  -- A command of which the name is at most 63 bytes is passed on whole to its function.
  pub request_command-called :
      (c : ℕ) (cs : Bytes) (stop : ℕ) (rest : Bytes)
      → Asked lib ev s ((c ∷ cs) ++ stop ∷ rest)
      → Word (c ∷ cs)
      → Unspaced lib (c ∷ cs)
      → length (c ∷ cs) < 64
      → lib.is_space stop ≡ true
      → length ((c ∷ cs) ++ stop ∷ rest) ≤ 32768
      → (input : Str) × IsText input ((c ∷ cs) ++ stop ∷ rest)
        × (dispatch lib conf ev s
            ≡ run_command
                (find_command lib.libc.same_case (c ∷ cs) cmd_list)
                lib
                conf
                ev
                (called s input (find_command lib.libc.same_case (c ∷ cs) cmd_list)))
  request_command-called c cs stop rest asked word un short space bounded =
      let message = (c ∷ cs) ++ stop ∷ rest in
      let (zeroed, input, first, run, text) = reads_input message asked bounded in
      let full : (input.len == 0) ≡ false = not_zero input.len _ text.1 in
      (
        input,
        text,
        idle lib conf ev s asked.waiting
            ∙ word_step zeroed input (ok (some (c ∷ cs))) first run full (
                ap (cmd_word lib.is_space 0) (take-IsText input message text)
                ∙ cmd_word-Unspaced lib 0 (c ∷ cs) stop rest un space (omega arith)
                    (omega (arith, short)))
            ∙ call_command-Word lib conf ev s input c cs word short,
      )

  -- When a client sends more than 64 bytes before the first space, in at most 32 KB, the name of the
  -- command is written behind the array for it.
  pub request_process-overflow :
      (word : Bytes) (c : ℕ) (rest : Bytes)
      → Asked lib ev s (word ++ c ∷ rest)
      → Unspaced lib word
      → lib.is_space c ≡ false
      → length word ≡ 64
      → length (word ++ c ∷ rest) ≤ 32768
      → request_process lib conf ev s ≡ fault
  unfolding request_process
  request_process-overflow word c rest asked un plain long bounded =
      let message = word ++ c ∷ rest in
      let (zeroed, input, first, run, text) = reads_input message asked bounded in
      let full : (input.len == 0) ≡ false =
        not_zero input.len (length word + length rest)
          (omega (arith, text.1, length-append word (c ∷ rest))) in
      rw
        (idle lib conf ev s asked.waiting
          ∙ word_step zeroed input fault first run full (
              ap (cmd_word lib.is_space 0) (take-IsText input message text)
              ∙ cmd_word-overflow lib 0 word c rest un plain (omega (arith, long))))
        refl

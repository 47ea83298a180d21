-- ===== src/Master/Session.antt =====
-- The sessions of the master server: master_server/process.c and the commands of
-- master_server/command.c.
pub mod Answered
pub mod Again
use tdss.Common.{
  ℕ, zero, suc, ◌+◌, ◌-◌, ◌%◌, ◌^◌, Bool, true, false, Option, none, some, List, [], ◌∷◌, ◌++◌,
  ◌==◌, if◌then◌else◌, length, get_or, replicate, Bytes, bytes,
}
use tdss.Master
use tdss.Master.{
  Master, DataServerInfo, Reply, err_ns_fname, err_ns_offline, err_ds_full, server, no_server,
}
use tdss.NameServer.Command.{text_arg, number_arg, placed_text, placed_number}
use tdss.NameServer.Process.{cmd_word}
use tdss.NameServer.Session.{State, session_begin, session_reply, session_end, Lib, content, crlf}
use tdss.Request.{Arg, Value, cstr, request_parse}
use tdss.Run.{Run, ok, fault, ◌>>=◌}
use tdss.Strings.{Str, Memory, string_catb, string_printf, unused}

-- The connection with its `session_s`, as far as the commands use it; the numbers of commands;
-- and besides `Master`, for each data server the address, `disk_size` and `inode_size`, and for
-- each name server `size` and `used`.
pub record MasterSession : Type 0 where
  pub id : ℕ
  pub state : State
  pub input : Str
  pub output : Str
  pub recv_bufs : List Bytes
  pub sid : ℕ
  pub master : Master
  pub addrs : ℕ → Bytes × ℕ
  pub sizes : ℕ → ℕ × ℕ
  pub counts : ℕ → ℕ × ℕ

-- `sscanf` with "%jx" besides the other libraries
pub record MasterLib : Type 0 where
  pub lib : Lib
  pub scan : Bytes → Option ℕ

-- The macro `session_return`
unfoldable pub master_return : MasterLib → MasterSession → Bytes → Run (State × MasterSession)
master_return l s text = string_printf l.lib.memory s.output (text ++ crlf) >>= λ r.
    ok (session_reply, record s { state = session_reply; output = r.1 })

-- The array `rq` of `server_find`
abbrev pub find_args : List Arg
find_args = text_arg (bytes "name") ∷ number_arg (bytes "size") ∷ []

-- The places of `find_args` are the locals `fname` and `size`.
unfoldable pub find_places : List (Option Value) → Bytes × ℕ
unfolding placed_text placed_number
find_places (name ∷ size ∷ []) = (placed_text name [], placed_number size 0)
find_places _ = ([], 0)

-- The texts that `server_find` answers with.
unfoldable pub reply_text : MasterLib → (ℕ → Bytes × ℕ) → Reply → Bytes
reply_text l addrs err_ns_fname = bytes "-1016 file name must is hex string"
reply_text l addrs err_ns_offline = bytes "-1017 name server Unavailable"
reply_text l addrs err_ds_full = bytes "-1201 Try again later"
reply_text l addrs (server i) =
    bytes "1000 server=" ++ ((addrs i).0 ++ (bytes " port=" ++ l.lib.signed (addrs i).1))

unfoldable pub find_answer : MasterLib → MasterSession → Bytes → ℕ → Run (State × MasterSession)
find_answer l s fname size =
    let (reply, master) = Master.server_find l.scan s.master fname size in
    master_return l (record s { master = master }) (reply_text l s.addrs reply)

-- `server_find`
unfoldable pub find_server : MasterLib → MasterSession → Run (State × MasterSession)
find_server l s = request_parse l.lib.libc (content s.input) find_args 2 (none ∷ none ∷ []) >>= λ r.
    elim r.0 [
      | false ↦ master_return l s (bytes "-1001 request parse error")
      | true ↦ find_answer l s (find_places r.1).0 (find_places r.1).1
    ]

-- What `status` prints of a data server and of a name server.
unfoldable pub data_line : Lib → ℕ → DataServerInfo → ℕ × ℕ → Bytes
data_line lib i dsi (disk_size, inode_size) =
    (10 ∷ bytes "data_server[")
    ++ (lib.signed i
        ++ (bytes "]: "
            ++ ((10 ∷ 9 ∷ bytes "status:")
                ++ (lib.signed dsi.state
                    ++ ((9 ∷ bytes "disk size:")
                        ++ (lib.unsigned disk_size
                            ++ (bytes "MB free:"
                                ++ (lib.unsigned dsi.disk_free
                                    ++ (bytes "MB"
                                        ++ ((9 ∷ bytes "inode size:")
                                            ++ (lib.unsigned inode_size
                                                ++ (bytes " free:"
                                                    ++ lib.unsigned dsi.inode_free))))))))))))

unfoldable pub name_line : Lib → ℕ → ℕ → ℕ × ℕ → Bytes
name_line lib i state (size, used) =
    (10 ∷ bytes "name_server[")
    ++ (lib.signed i
        ++ (bytes "]: "
            ++ ((10 ∷ 9 ∷ bytes "status:")
                ++ (lib.signed state
                    ++ ((9 ∷ bytes "size:")
                        ++ (lib.unsigned size
                            ++ ((9 ∷ bytes "used:") ++ (lib.unsigned used ++ (10 ∷ [])))))))))

-- The two loops of `status`, with the number of the first server of the list; a `string_cats` that
-- fails is passed over.
unfoldable pub data_lines : MasterLib → MasterSession → ℕ → List DataServerInfo → Str → Run Str
data_lines l s i [] res = ok res
data_lines l s i (dsi ∷ info) res =
    string_catb l.lib.memory res (data_line l.lib i dsi (s.sizes i)) >>= λ r.
    data_lines l s (suc i) info r.1

unfoldable pub name_lines : MasterLib → MasterSession → ℕ → List ℕ → Str → Run Str
name_lines l s i [] res = ok res
name_lines l s i (state ∷ info) res =
    string_catb l.lib.memory res (name_line l.lib i state (s.counts i)) >>= λ r.
    name_lines l s (suc i) info r.1

-- `status`; `res.str` is null when there are no servers.
unfoldable pub master_status : MasterLib → MasterSession → Run (State × MasterSession)
master_status l s = data_lines l s 0 s.master.data_server unused >>= λ first.
    name_lines l s 0 s.master.name_server first >>= λ res.
    cstr res.str >>= λ text. master_return l s (bytes "1000 success" ++ text)

pub data MasterCommand : Type 0 where
  server_find status cmd_nofound : MasterCommand

unfoldable pub run_master_command :
    MasterCommand → MasterLib → MasterSession → Run (State × MasterSession)
run_master_command server_find l s = find_server l s
run_master_command status l s = master_status l s
run_master_command cmd_nofound l s = master_return l s (bytes "-1000 command no found")

abbrev pub master_commands : List (Bytes × MasterCommand)
master_commands = (bytes "server_find", server_find) ∷ (bytes "status", status) ∷ []

unfoldable pub find_master_command :
    (Bytes → Bytes → Bool) → Bytes → List (Bytes × MasterCommand) → MasterCommand
find_master_command same cmd [] = cmd_nofound
find_master_command same cmd ((name, c) ∷ list) =
    if same name cmd then c else find_master_command same cmd list

-- `session_id_create`, and the end of `request_command`
abbrev pub numbered : MasterSession → MasterSession
numbered s = record s { id = s.sid; sid = (s.sid + 1) % 2 ^ 32 }

unfoldable pub call_master_command : MasterLib → MasterSession → Bytes → Run (State × MasterSession)
call_master_command l s word = cstr (word ++ replicate (64 - length word) 0) >>= λ cmd. elim cmd [
  | [] ↦ ok (session_begin, s)
  | c ∷ cs ↦
      run_master_command (find_master_command l.lib.libc.same_case (c ∷ cs) master_commands) l
        (numbered s)
]

-- `request_command`
unfoldable pub master_request_command : MasterLib → MasterSession → Run (State × MasterSession)
master_request_command l s =
    if s.input.len == 0
    then ok (session_end, s)
    else (cmd_word l.lib.is_space 0 (content s.input) >>= λ found. elim found [
      | none ↦ ok (session_begin, s)
      | some word ↦ call_master_command l s word
    ])

-- The loop of `on_request` over the buffers
unfoldable pub take_bufs : Memory → Str → List Bytes → Run (Bool × Str)
take_bufs mem input [] = ok (true, input)
take_bufs mem input (buf ∷ bufs) = string_catb mem input buf >>= λ r. elim r.0 [
  | false ↦ ok (false, r.1)
  | true ↦ take_bufs mem r.1 bufs
]

-- `on_request` for a client's connection: the flag is false for MRT_ERR. What the command returns is
-- not looked at, and neither the buffers nor the input are emptied.
unfoldable pub on_request : MasterLib → MasterSession → Run (Bool × MasterSession)
on_request l s = take_bufs l.lib.memory s.input s.recv_bufs >>= λ r. elim r.0 [
  | false ↦ ok (false, record s { input = r.1 })
  | true ↦ master_request_command l (record s { input = r.1 }) >>= λ t. ok (true, t.1)
]

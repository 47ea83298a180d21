-- ===== src/NameServer/Command.antt =====
-- name_server/command.c: the handlers of the commands, and the list of them.
use tdss.Common.{
  ℕ, Bool, true, false, Option, none, some, List, [], ◌∷◌, ◌++◌, ◌==◌, if◌then◌else◌, Bytes, bytes,
}
use tdss.NameServer.FblockMem.{
  Fblock, sys_err, no_file, done, fblock_mem_add, fblock_mem_get, fblock_mem_set, fblock_ref_inc,
  fblock_ref_dec, fblock_mem_status,
}
use tdss.NameServer.Session.{
  session_wait, Ret, state, Command, file_info_add, file_info_set, file_info_get, file_ref_dec,
  file_ref_inc, status, cmd_nofound, Server, Lib, NameServerConf, Event, content, session_return,
}
use tdss.NameServer.Sync.{name_server_sync}
use tdss.Request.{Arg, Value, number, text, rq_type_u32, rq_type_str, request_parse}
use tdss.Run.{Run, ok, ◌>>=◌}

abbrev pub number_arg : Bytes → Arg
number_arg key = record { type = rq_type_u32; key = key; vsize = 0 }

abbrev pub text_arg : Bytes → Arg
text_arg key = record { type = rq_type_str; key = key; vsize = 33 }

-- The array `rq` of `file_info_add` and `file_info_set`
abbrev pub info_args : List Arg
info_args =
    number_arg (bytes "server")
    ∷ text_arg (bytes "name")
    ∷ text_arg (bytes "file")
    ∷ number_arg (bytes "offset")
    ∷ number_arg (bytes "size")
    ∷ []

-- The array `rq` of the other commands
abbrev pub name_args : List Arg
name_args = text_arg (bytes "name") ∷ []

-- What stands in a place that may have been stored to.
unfoldable pub placed_number : Option Value → ℕ → ℕ
placed_number (some (number n)) old = n
placed_number _ old = old

unfoldable pub placed_text : Option Value → Bytes → Bytes
placed_text (some (text t)) old = t
placed_text _ old = old

-- The places of `info_args` are fields of `ss->fb`.
unfoldable pub info_fields : List (Option Value) → Fblock → Fblock
unfolding placed_number placed_text
info_fields (server ∷ name ∷ file ∷ offset ∷ size ∷ []) fb = record {
  server = placed_number server fb.server;
  size = placed_number size fb.size;
  offset = placed_number offset fb.offset;
  ref = fb.ref;
  name = placed_text name fb.name;
  file = placed_text file fb.file;
}
info_fields _ fb = fb

unfoldable pub name_field : List (Option Value) → Fblock → Fblock
unfolding placed_text
name_field (name ∷ []) fb = record fb { name = placed_text name fb.name }
name_field _ fb = fb

abbrev pub with_fb : Server → Fblock → Server
with_fb s fb = record s { session = record s.session { fb = fb } }

-- What all writing handlers end with: a slave answers at once, a master asks its slave first.
unfoldable pub sync_or_reply : Lib → NameServerConf → Event → Server → Run (Ret × Server)
sync_or_reply lib conf ev s =
    if conf.server_type == 2
    then session_return lib s (bytes "1000 ok")
    else (name_server_sync lib conf ev s >>= λ r.
        if r.0
        then ok (state session_wait, r.1)
        else session_return lib r.1 (bytes "-1101 mem sync error"))

-- The last part of `file_info_add` and `file_info_set`, after the index
unfoldable pub info_done : Lib → NameServerConf → Event → Bool × Server → Run (Ret × Server)
info_done lib conf ev (true, s) = sync_or_reply lib conf ev s
info_done lib conf ev (false, s) = session_return lib s (bytes "-1101 mem add error")

-- `file_info_add`
unfoldable pub add_info : Lib → NameServerConf → Event → Server → Run (Ret × Server)
add_info lib conf ev s =
    request_parse lib.libc (content s.session.input) info_args 5
      (none ∷ none ∷ none ∷ none ∷ none ∷ [])
    >>= λ r.
        let s' : Server = with_fb s (info_fields r.1 s.session.fb) in
        if r.0
        then (fblock_mem_add lib.scan s'.db s'.session.fb ev.env >>= λ a.
            info_done lib conf ev (a.0, record s' { db = a.1 }))
        else session_return lib s' (bytes "-1001 request parse error")

-- `file_info_set`
unfoldable pub set_info : Lib → NameServerConf → Event → Server → Run (Ret × Server)
set_info lib conf ev s =
    request_parse lib.libc (content s.session.input) info_args 5
      (none ∷ none ∷ none ∷ none ∷ none ∷ [])
    >>= λ r.
        let s' : Server = with_fb s (info_fields r.1 s.session.fb) in
        if r.0
        then (fblock_mem_set lib.scan s'.db s'.session.fb >>= λ a.
            info_done lib conf ev (a.0, record s' { db = a.1 }))
        else session_return lib s' (bytes "-1001 request parse error")

-- The text of the answer to `file_info_get`
unfoldable pub info_text : Lib → Fblock → Bytes
info_text lib fb =
    bytes "1000 server="
    ++ (lib.signed fb.server
        ++ (bytes " file="
            ++ (fb.file
                ++ (bytes " name="
                    ++ (fb.name
                        ++ (bytes " offset="
                            ++ (lib.unsigned fb.offset
                                ++ (bytes " size="
                                    ++ (lib.unsigned fb.size
                                        ++ (bytes " ref=" ++ lib.unsigned fb.ref))))))))))

-- `file_info_get`
unfoldable pub get_info : Lib → Server → Run (Ret × Server)
get_info lib s = request_parse lib.libc (content s.session.input) name_args 1 (none ∷ []) >>= λ r.
    let s' : Server = with_fb s (name_field r.1 s.session.fb) in
    if r.0
    then (fblock_mem_get lib.print s'.db s'.session.fb >>= λ found. elim found [
      | none ↦ session_return lib s' (bytes "-1102 mem get error")
      | some fb ↦ session_return lib (with_fb s' fb) (info_text lib fb)
    ])
    else session_return lib s' (bytes "-1001 request parse error")

-- `file_ref_dec`; 7 arguments are announced, and one is there.
unfoldable pub dec_ref : Lib → NameServerConf → Event → Server → Run (Ret × Server)
dec_ref lib conf ev s =
    request_parse lib.libc (content s.session.input) name_args 7 (none ∷ []) >>= λ r.
    let s' : Server = with_fb s (name_field r.1 s.session.fb) in
    if r.0
    then (fblock_ref_dec s'.db s'.session.fb.name ev.env >>= λ a. elim a.0 [
      | sys_err ↦ session_return lib (record s' { db = a.1 }) (bytes "-1106 ref dec error")
      | no_file ↦ sync_or_reply lib conf ev (record s' { db = a.1 })
      | done ↦ sync_or_reply lib conf ev (record s' { db = a.1 })
    ])
    else session_return lib s' (bytes "-1001 request parse error")

-- `file_ref_inc`
unfoldable pub inc_ref : Lib → NameServerConf → Event → Server → Run (Ret × Server)
inc_ref lib conf ev s =
    request_parse lib.libc (content s.session.input) name_args 7 (none ∷ []) >>= λ r.
    let s' : Server = with_fb s (name_field r.1 s.session.fb) in
    if r.0
    then (fblock_ref_inc s'.db s'.session.fb.name >>= λ a. elim a.0 [
      | sys_err ↦ session_return lib (record s' { db = a.1 }) (bytes "-1106 ref inc error")
      | no_file ↦ sync_or_reply lib conf ev (record s' { db = a.1 })
      | done ↦ sync_or_reply lib conf ev (record s' { db = a.1 })
    ])
    else session_return lib s' (bytes "-1001 request parse error")

-- `status`, where `fblock_mem_status` does not fail
unfoldable pub show_status : Lib → NameServerConf → Server → Run (Ret × Server)
show_status lib conf s = session_return lib s (
    bytes "1000 server_id="
    ++ (lib.signed conf.server_id
        ++ (bytes " server_type="
            ++ (lib.signed conf.server_type
                ++ (bytes " size="
                    ++ (lib.unsigned (fblock_mem_status s.db).0
                        ++ (bytes " used=" ++ lib.unsigned (fblock_mem_status s.db).1)))))))

-- The call of a function of the list
unfoldable pub run_command : Command → Lib → NameServerConf → Event → Server → Run (Ret × Server)
run_command file_info_add lib conf ev s = add_info lib conf ev s
run_command file_info_set lib conf ev s = set_info lib conf ev s
run_command file_info_get lib conf ev s = get_info lib s
run_command file_ref_dec lib conf ev s = dec_ref lib conf ev s
run_command file_ref_inc lib conf ev s = inc_ref lib conf ev s
run_command status lib conf ev s = show_status lib conf s
run_command cmd_nofound lib conf ev s = session_return lib s (bytes "-1000 command no found")

-- `cmd_list`, with `cmd_nofound` at its end
abbrev pub cmd_list : List (Bytes × Command)
cmd_list =
    (bytes "file_info_add", file_info_add)
    ∷ (bytes "file_info_set", file_info_set)
    ∷ (bytes "file_info_get", file_info_get)
    ∷ (bytes "file_ref_dec", file_ref_dec)
    ∷ (bytes "file_ref_inc", file_ref_inc)
    ∷ (bytes "status", status)
    ∷ []

unfoldable pub find_command : (Bytes → Bytes → Bool) → Bytes → List (Bytes × Command) → Command
find_command same cmd [] = cmd_nofound
find_command same cmd ((name, c) ∷ list) = if same name cmd then c else find_command same cmd list

-- ===== src/NameServer/Process/Shared.antt =====
-- Two clients of name_server/process.c: `file_info_get` of one answers what `file_info_add` of the
-- other put into the index.
use mathlib.Core.Path.{subst}
use tdss.Common.{ℕ, ◌%◌, ◌^◌, ◌≤◌, ◌≡◌, ◌≢◌, Option, none, some, [], ◌++◌, take, Bytes}
use tdss.Hashdb.{Hashdb}
use tdss.Hashdb.Enter.{update}
use tdss.Hashdb.Holds.{Represents}
use tdss.Hashdb.Insert.{Grants}
use tdss.NameServer.Command.{info_text}
use tdss.NameServer.FblockMem.{fbm_bytes}
use tdss.NameServer.Index.{half_of_word, kept, kept-Fits}
use tdss.NameServer.Process.{request_process}
use tdss.NameServer.Process.Added.{Adds, added_file, request_process-Added}
use tdss.NameServer.Process.Sends.{Sending}
use tdss.NameServer.RefCount.{update_self}
use tdss.NameServer.Session.{Server, Lib, NameServerConf, Event, crlf}
use tdss.Run.{Returns}
use tdss.NameServer.Process.Got.{Gets, request_process-Got}

-- The connections of a server share the index.
abbrev pub with_db : Server → Hashdb → Server
with_db s m = record s { db = m }

with_db-Gets :
    (lib : Lib) (ev : Event) (s : Server) (name : Bytes) (m : Hashdb)
    → Gets lib ev s name
    → Gets lib ev (with_db s m) name
with_db-Gets lib ev s name m gets = record {
  asked = record {
    memory = gets.asked.memory;
    waiting = gets.asked.waiting;
    input = gets.asked.input;
    output = gets.asked.output;
    chunks = gets.asked.chunks;
    reads = gets.asked.reads;
    whole = gets.asked.whole;
  };
  fields = gets.fields;
  unspaced = gets.unspaced;
  space = gets.space;
  found = gets.found;
}

-- A file that one client adds on a slave under a new name, under the conditions for adding, is what
-- any client that asks for the name next is told of: its server cut to 16 bits, its size and offset,
-- its block file from the two numbers cut to 32 and 16 bits, and a count of 1.
pub request_process-Shared :
    (lib : Lib) (conf : NameServerConf) (ev ev' : Event) (s other : Server)
    (server name file offset size : Bytes) {f : Bytes → Option Bytes} (prefix suffix : ℕ)
    → Adds lib ev s server name file offset size
    → conf.server_type ≡ 2
    → Represents s.db f
    → 2 ^ 16 ≤ s.db.size
    → take 32 name ≢ []
    → Grants ev.env s.db
    → lib.scan (take 32 file) ≡ some (prefix, suffix)
    → f (take 32 name) ≡ none
    → Gets lib ev' other name
    → Returns (request_process lib conf ev s) λ added.
      Returns (request_process lib conf ev' (with_db other added.db)) λ got.
        Sending other.sent
          (info_text lib (record {
            server = lib.libc.atoi server % 2 ^ 32 % 2 ^ 16;
            size = lib.libc.atoi size % 2 ^ 32 % 2 ^ 32;
            offset = lib.libc.atoi offset % 2 ^ 32 % 2 ^ 32;
            ref = 1;
            name = take 32 name;
            file = lib.print (prefix % 2 ^ 32) (suffix % 2 ^ 16);
          })
            ++ crlf)
          got
request_process-Shared lib conf ev ev' s other server name file offset size {f} prefix suffix adds
      slave rep wide k g scanned new gets =
    let b = kept (added_file lib conf ev s server name file offset size adds) prefix suffix in
    let (added, run, (_, _, rep')) =
      (request_process-Added lib conf ev s server name file offset size adds {f = f} prefix suffix
          slave rep wide k g scanned).0
        new in
    let f' = update f (take 32 name) (some (fbm_bytes b)) in
    let (got, process, (sending, _, _)) =
      (request_process-Got lib conf ev' (with_db other added.db) name
          (with_db-Gets lib ev' other name added.db gets) {f = f'} b rep' k
          (kept-Fits (added_file lib conf ev s server name file offset size adds) prefix suffix)).0
        (update_self f (take 32 name) (some (fbm_bytes b))) in
    (
      added,
      run,
      (
        got,
        process,
        subst
            (λ (n : ℕ).
              Sending other.sent
                (info_text lib (record {
                  server = lib.libc.atoi server % 2 ^ 32 % 2 ^ 16;
                  size = lib.libc.atoi size % 2 ^ 32 % 2 ^ 32;
                  offset = lib.libc.atoi offset % 2 ^ 32 % 2 ^ 32;
                  ref = 1;
                  name = take 32 name;
                  file = lib.print (prefix % 2 ^ 32) n;
                })
                  ++ crlf)
                got)
            (half_of_word suffix) sending,
      ),
    )

-- ===== src/DataServer/Process/Uploaded.antt =====
-- An upload to data_server/process.c from the command to the last byte, in the block file that is in
-- use.
use mathlib.Core.List.{flatten}
use mathlib.Core.Path.{ap₂, subst}
use tdss.Common.{
  ℕ, suc, ◌+◌, ◌/◌, ◌%◌, ◌^◌, ◌<◌, ◌≡◌, refl, sym, ◌∙◌, ap, true, some, List, [], ◌∷◌, ◌++◌, map,
  take, arith, length, get_or, set, replicate, replicate-zero, Bytes, bytes,
}
use tdss.DataServer.Blocks.{Store, no_block, block_file_append, append_current}
use tdss.DataServer.Blocks
use tdss.DataServer.Blocks.Places.{append_one}
use tdss.DataServer.Command.{with_file, truncated, take_place}
use tdss.DataServer.NameClient.Registered.{Connects}
use tdss.DataServer.Process.{file_request_process}
use tdss.DataServer.Process.Accepted.{upload_text, Uploads, asked, ready, add_answers}
use tdss.DataServer.Process.Answered.{replying, written, file_reply-written}
use tdss.DataServer.Process.Heard.{commanded}
use tdss.DataServer.Process.Incoming.{path_of-block, with_file-same, Incoming}
use tdss.DataServer.Process.Received.{Comes}
use tdss.DataServer.Process.Saved.{file_calls, Parts, pieces, one_call, calls_from}
use tdss.DataServer.Session.{file_add, block, FileServer, FileLib, DataServerConf, FileEvent}
use tdss.DataServer.Upload.{splice}
use tdss.NameServer.Process.Forwarded.{add_text}
use tdss.NameServer.Session.{Child, Writing, wrote, crlf}
use tdss.Run.{Returns, ok}
use tdss.Strings.{Str}
use tdss.Strings.Contents.{IsText}

-- The blocks when a file has been given a place in one.
abbrev pub extended : Store → ℕ → ℕ → Store
extended st i n = record st {
  blocks = set st.blocks i (record (get_or st.blocks i no_block) {
    size = (get_or st.blocks i no_block).size + n;
    num = ((get_or st.blocks i no_block).num + 1) % 2 ^ 32;
    file_length = (get_or st.blocks i no_block).size + n;
  });
}

append_current-extended :
    (st : Store) (i n : ℕ) (disk : Blocks.Disk)
    → disk.truncate_ok ≡ true
    → append_current st i n disk ≡ (
      some (record { block = i; pos = some (get_or st.blocks i no_block).size }),
      extended st i n,
    )
unfolding append_current
append_current-extended st i n disk works = rw works refl

-- The session with that place, of `n` bytes
abbrev pub reserved : FileServer → ℕ → ℕ → ℕ → FileServer
reserved s i at n = record s {
  session = record s.session {
    bf = some (block i);
    fb_info = record s.session.fb_info { offset = at % 2 ^ 32; ref = at / 2 ^ 32 % 2 ^ 32 };
  };
  store = extended s.store i n;
  files = with_file s.files (s.names i) (truncated (s.files (s.names i)) (at + n));
}

-- There is a current block with room for a file of `n` bytes.
abbrev pub Room : DataServerConf → FileEvent → FileServer → ℕ → ℕ → Type 0
Room conf ev s i n =
    (s.store.cbf ≡ some i)
    × ((get_or s.store.blocks i no_block).size + n < conf.max_block_size)
    × (conf.max_block_size < 2 ^ 31)
    × (ev.blocks.truncate_ok ≡ true)

abbrev pub created_text : Bytes → Bytes
created_text path = (bytes "1000 file:" ++ (path ++ bytes " create")) ++ crlf

takes_place :
    (conf : DataServerConf) (ev : FileEvent) (s u : FileServer) (i n : ℕ)
    → Room conf ev s i n
    → u.session.fb_info.size ≡ n
    → u.store ≡ s.store
    → take_place ev u (block_file_append conf.max_block_size s.store n ev.blocks)
      ≡ (true, reserved u i (get_or s.store.blocks i no_block).size n)
unfolding take_place
takes_place conf ev s u i n (here, room, small, works) size same =
    ap (take_place ev u) (
      append_one conf.max_block_size s.store i n ev.blocks here room
      ∙ append_current-extended s.store i n ev.blocks works)
    ∙ ap₂
        (λ (m : ℕ) (st : Store). (
          true,
          record u {
            session = record u.session {
              bf = some (block i);
              fb_info = record u.session.fb_info {
                offset = (get_or s.store.blocks i no_block).size % 2 ^ 32;
                ref = (get_or s.store.blocks i no_block).size / 2 ^ 32 % 2 ^ 32;
              };
            };
            store = extended st i n;
            files =
                with_file u.files (u.names i)
                  (truncated (u.files (u.names i)) ((get_or s.store.blocks i no_block).size + m));
          },
        ))
        size (sym same)

module _ (l : FileLib) (conf : DataServerConf) (ev : FileEvent) (s : FileServer) (name size : Bytes)
    (uploads : Uploads l ev s name size) (i : ℕ)
    (room : Room conf ev s i (l.lib.libc.atoi size % 2 ^ 32)) where
  abbrev pub placed : Str → FileServer
  placed input =
      reserved (asked l conf ev s name size uploads (commanded s input file_add)) i
        (get_or s.store.blocks i no_block).size (l.lib.libc.atoi size % 2 ^ 32)

  -- The answer to the command
  pub add_accepted :
      (input output : Str) × IsText input (upload_text name size)
      × (file_request_process l conf ev s ≡ ok (replying (ready (placed input) (s.names i)) output))
      × IsText output (created_text (s.names i))
      × (output.idx ≡ 0)
  add_accepted =
      add_answers l conf ev s name size uploads placed (s.names i)
        (λ input.
          takes_place conf ev s (asked l conf ev s name size uploads (commanded s input file_add)) i
            (l.lib.libc.atoi size % 2 ^ 32) room refl refl)
        (λ input. path_of-block (placed input) i refl) (λ input. refl)

  -- The session when that answer has been written
  abbrev pub prepared : Str → Str → Str → Str → FileServer
  prepared input output input' output' =
      written (replying (ready (placed input) (s.names i)) output) input' output'
        (created_text (s.names i))

  prepared-Incoming :
      (input output input' output' : Str)
      → 0 < l.bufsiz
      → s.session.proc_size ≡ 0
      → s.session.bf_buf ≡ []
      → Incoming l
          ((prepared input output input' output').files (s.names i))
          i
          (prepared input output input' output')
          []
  prepared-Incoming input output input' output' some_room none_yet empty =
      let cleared : replicate {A = ℕ} (length s.session.bf_buf) 0 ≡ [] =
        ap (λ (b : Bytes). replicate (length b) 0) empty ∙ replicate-zero {A = ℕ} 0 in
      record {
        reading = refl;
        proc = refl;
        file = refl;
        taken = record {
          written = [];
          whole = cleared;
          proc = none_yet;
          placed = refl;
          room = subst (λ (b : Bytes). length b < l.bufsiz) (sym cleared) some_room;
          fits = omega arith;
          done = λ e. cleared;
        };
      }

  kept_offset :
      (get_or s.store.blocks i no_block).size % 2 ^ 32 ≡ (get_or s.store.blocks i no_block).size
  kept_offset = omega (arith, room.1, room.2)

  -- What has become of the upload: the client has been sent the answer to the command, the body lies
  -- in the block file behind the files that were there, and the connection to the name server has
  -- the line about it to send.
  abbrev pub Uploaded : Bytes → FileServer → Type 0
  Uploaded body s' =
      let at = (get_or s.store.blocks i no_block).size in
      (s'.sent ≡ s.sent ++ created_text (s.names i))
      × (s'.files (s.names i)
          ≡ splice (truncated (s.files (s.names i)) (at + l.lib.libc.atoi size % 2 ^ 32)) at body)
      × ((c : Child) × (s'.child ≡ some c)
          × IsText c.output (
              add_text (l.lib.signed conf.server_id) (take 32 name) (l.base (take 31 (s.names i)))
                (l.lib.unsigned at) (l.lib.signed (l.lib.libc.atoi size % 2 ^ 32))))

  -- A client sends `file_add` to a session with an empty buffer and nothing written, and the current
  -- block has room for the size: when the answer can be written at once, the disk works, and then
  -- the body comes, in any number of calls and cut in any way, with the last bytes of it in the last
  -- call, the client is answered with the path of the block file, the body lies in the block file
  -- behind the bytes that were given out before, in order and whole, and the connection to the master
  -- name server for the name has the line to send that says where the file lies.
  pub file_calls-Uploaded :
      (answer : FileEvent) (ws : List Writing) (max : ℕ) (parts : List (FileEvent × List Bytes))
      (last : FileEvent) (chunks : List Bytes)
      → 0 < l.bufsiz
      → s.session.proc_size ≡ 0
      → s.session.bf_buf ≡ []
      → answer.net.writes ≡ wrote (suc max) ∷ ws
      → suc max ≡ length (created_text (s.names i))
      → Parts parts
      → Comes last chunks
      → 0 < length (flatten chunks)
      → length (pieces parts ++ flatten chunks) ≡ l.lib.libc.atoi size % 2 ^ 32
      → Connects l.lib conf.servers last.net (take 32 name)
      → Returns
          (file_calls l conf (ev ∷ answer ∷ (map (λ p. p.0) parts ++ last ∷ [])) s)
          (Uploaded (pieces parts ++ flatten chunks))
  file_calls-Uploaded answer ws max parts last chunks some_room none_yet empty writes all come comes
        some_more whole connects =
      let at = (get_or s.store.blocks i no_block).size in
      let n = l.lib.libc.atoi size % 2 ^ 32 in
      let body = pieces parts ++ flatten chunks in
      let evs : List FileEvent = map (λ p. p.0) parts ++ last ∷ [] in
      let gives = uploads.told.memory in
      let (input, output, holds, run, text, start) = add_accepted in
      let (input', output', run', _, _) =
        file_reply-written l conf answer (replying (ready (placed input) (s.names i)) output)
          (created_text (s.names i)) max ws refl holds.0 text start all writes in
      let now = prepared input output input' output' in
      let (s', rest, (file, _, _, _, _, _, sent, (c, child, line, _))) =
        calls_from l conf (now.files (s.names i)) i some_room gives parts last chunks now []
          (prepared-Incoming input output input' output' some_room none_yet empty) come comes
          some_more whole connects in
      (
        s',
        one_call l conf ev (answer ∷ evs) s (replying (ready (placed input) (s.names i)) output) run
            (one_call l conf answer evs (replying (ready (placed input) (s.names i)) output) now
              run' rest),
        (
          sent,
          file
              ∙ ap₂ (λ (f : ℕ → ℕ) (o : ℕ). splice f o body)
                  (with_file-same s.files (s.names i) (truncated (s.files (s.names i)) (at + n)))
                  kept_offset,
          (
            c,
            child,
            subst
                (λ (o : ℕ). IsText c.output (
                  add_text (l.lib.signed conf.server_id) (take 32 name)
                    (l.base (take 31 (s.names i))) (l.lib.unsigned o) (l.lib.signed n)))
                kept_offset line,
          ),
        ),
      )

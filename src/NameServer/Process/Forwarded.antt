-- ===== src/NameServer/Process/Forwarded.antt =====
-- What `file_info_add` of name_server/command.c does on a master, which passes the command on to its
-- slave by name_server/name_server_sync.c, and what the slave makes of it.
use mathlib.Core.Path.{subst}
use tdss.Common.{
  ℕ, ◌^◌, ◌≤◌, ◌≡◌, ◌≢◌, refl, sym, ◌∙◌, ap, Bool, true, false, Option, none, some, [], ◌∷◌, ◌++◌,
  take, arith, ◌==◌, Bytes, bytes,
}
use tdss.Config.{Addr, ns_get_slave_addr}
use tdss.Hashdb.{Hashdb}
use tdss.Hashdb.Enter.{update}
use tdss.Hashdb.Holds.{Represents}
use tdss.Hashdb.Insert.{Grants}
use tdss.NameServer.Command.{with_fb, sync_or_reply}
use tdss.NameServer.FblockMem.{fbm_bytes, fblock_mem_add}
use tdss.NameServer.Index.{kept, fblock_mem_add-counts}
use tdss.NameServer.Process.{dispatch, next_task, request_process}
use tdss.NameServer.Process.Added.{Adds, added_file, add_fields, add_reaches, request_process-Added}
use tdss.NameServer.Process.Request.{called}
use tdss.NameServer.Process.Sends.{Sending}
use tdss.NameServer.Session.{
  session_write, session_wait, state, task_wait_write, task_wait_noop, Child, Server, Lib,
  NameServerConf, Event, file_info_add, crlf,
}
use tdss.NameServer.Sync.{name_server_sync}
use tdss.Request.Command.{message}
use tdss.Run.{Returns, ok}
use tdss.Strings.{unused}
use tdss.Strings.Contents.{IsText, Gives}
use tdss.Strings.Copy.{string_copy-Holds}

-- The slave of the name can be reached, and there is memory for the connection to it.
abbrev pub Reaches : Lib → NameServerConf → Event → Bytes → Type 0
Reaches lib conf ev name =
    (addr : Addr) × (ns_get_slave_addr lib.crc conf.servers name ≡ ok addr)
    × (ev.connects addr ≡ true)
    × (ev.session_mem ≡ true)
    × (ev.added ≡ true)

-- The connection to the slave has the text to send.
abbrev pub Forwards : Bytes → Server → Type 0
Forwards text s =
    (c : Child) × (s.child ≡ some c)
    × IsText c.output text
    × (c.state ≡ session_write)
    × (c.task ≡ task_wait_write)

not_slave : (n : ℕ) → n ≢ 2 → (n == 2) ≡ false
not_slave n ne = ground arith

sync_runs :
    (lib : Lib) (conf : NameServerConf) (ev : Event) (s : Server) (c : ℕ) (cs : Bytes)
    → Gives lib.memory
    → IsText s.session.input (c ∷ cs)
    → c ≢ 0
    → Reaches lib conf ev s.session.fb.name
    → Returns
        (name_server_sync lib conf ev s)
        (λ r. (r.0 ≡ true) × (r.1.db ≡ s.db) × Forwards (c ∷ cs) r.1)
unfolding name_server_sync
sync_runs lib conf ev s c cs gives text ne (addr, slave, connects, mem, added) =
    let (r, copy, (fine, holds)) =
      string_copy-Holds lib.memory s.session.input c cs gives text ne in
    let child : Child = record {
      state = session_write;
      receives = false;
      task = task_wait_write;
      input = unused;
      output = r.1;
    } in
    (
      (true, record s { child = some child }),
      rw slave (rw connects (rw mem (rw copy (rw added refl)))),
      (refl, refl, (child, refl, holds, refl, refl)),
    )

forwards :
    (lib : Lib) (conf : NameServerConf) (ev : Event) (s : Server) (m : Server)
    → conf.server_type ≢ 2
    → name_server_sync lib conf ev s ≡ ok (true, m)
    → sync_or_reply lib conf ev s ≡ ok (state session_wait, m)
unfolding sync_or_reply
forwards lib conf ev s m master run = rw (not_slave conf.server_type master) (rw run refl)

waits :
    (lib : Lib) (conf : NameServerConf) (ev : Event) (s m : Server)
    → dispatch lib conf ev s ≡ ok (state session_wait, m)
    → request_process lib conf ev s ≡ ok (record m { task = task_wait_noop })
unfolding request_process next_task
waits lib conf ev s m run = rw run refl

abbrev pub add_text : Bytes → Bytes → Bytes → Bytes → Bytes → Bytes
add_text server name file offset size =
    bytes "file_info_add" ++ 32 ∷ message (add_fields server name file offset size) (10 ∷ [])

module _ (lib : Lib) (conf : NameServerConf) (ev : Event) (s : Server)
    (server name file offset size : Bytes) (adds : Adds lib ev s server name file offset size) where
  -- What a master does with a file that its index takes.
  add-Forwards :
      (m : Hashdb)
      → conf.server_type ≢ 2
      → Reaches lib conf ev (take 32 name)
      → fblock_mem_add lib.scan s.db
          (added_file lib conf ev s server name file offset size adds)
          ev.env
        ≡ ok (true, m)
      → Returns (request_process lib conf ev s) λ s'.
        (s'.task ≡ task_wait_noop)
        × (s'.db ≡ m)
        × Forwards (add_text server name file offset size) s'
  add-Forwards m master reaches added =
      let (input, holds, run) =
        add_reaches lib conf ev s server name file offset size adds m added in
      let after : Server =
        record (with_fb (called s input file_info_add)
          (added_file lib conf ev s server name file offset size adds)) { db = m } in
      let (r, sync, (fine, db, forward)) =
        sync_runs lib conf ev after 102
          (bytes "ile_info_add" ++ 32 ∷ message (add_fields server name file offset size) (10 ∷ []))
          adds.asked.memory holds (omega arith) reaches in
      (
        record r.1 { task = task_wait_noop },
        waits lib conf ev s r.1 (
            run
            ∙ forwards lib conf ev after r.1 master (sync ∙ ap (λ (b : Bool). ok (b, r.1)) fine)),
        (refl, db, forward),
      )

  -- A master takes a file under a new name into its index, and has the command to send on.
  pub request_process-Forwards :
      {f : Bytes → Option Bytes} (prefix suffix : ℕ)
      → conf.server_type ≢ 2
      → Reaches lib conf ev (take 32 name)
      → Represents s.db f × (2 ^ 16 ≤ s.db.size) × Grants ev.env s.db × (f (take 32 name) ≡ none)
      → take 32 name ≢ []
      → lib.scan (take 32 file) ≡ some (prefix, suffix)
      → Returns (request_process lib conf ev s) λ s'.
        (s'.task ≡ task_wait_noop)
        × Represents s'.db (
            update f (take 32 name) (
              some (
                fbm_bytes (
                  kept
                    (added_file lib conf ev s server name file offset size adds)
                    prefix
                    suffix))))
        × Forwards (add_text server name file offset size) s'
  request_process-Forwards {f} prefix suffix master reaches (rep, wide, grants, new) k scanned =
      let fb = added_file lib conf ev s server name file offset size adds in
      let v = fbm_bytes (kept fb prefix suffix) in
      let ((b, m), added, (fine, holds)) =
        (fblock_mem_add-counts {f = f} lib.scan fb prefix suffix ev.env rep wide k grants scanned).0
          new in
      let (s', run, (task, db, forward)) =
        add-Forwards m master reaches (added ∙ ap (λ (b : Bool). ok (b, m)) fine) in
      (
        s',
        run,
        (
          task,
          subst (λ (m' : Hashdb). Represents m' (update f (take 32 name) (some v))) (sym db) holds,
          forward,
        ),
      )

-- A file is added on a master and then on its slave, which is sent the same bytes by the master: with
-- a new name on both, under the conditions for adding on each, and a slave that can be reached, the
-- master has the file in its index, leaves its client to wait, and has the command it was sent to
-- send to the slave; and when the slave reads that, it has the file with the same bytes in its
-- index, and answers "1000 ok".
pub request_process-Replicated :
    (lib : Lib) (conf conf' : NameServerConf) (ev ev' : Event) (s slave : Server)
    (server name file offset size : Bytes) {f g : Bytes → Option Bytes} (prefix suffix : ℕ)
    → Adds lib ev s server name file offset size
    → Adds lib ev' slave server name file offset size
    → conf.server_type ≢ 2
    → conf'.server_type ≡ 2
    → Reaches lib conf ev (take 32 name)
    → Represents s.db f × (2 ^ 16 ≤ s.db.size) × Grants ev.env s.db × (f (take 32 name) ≡ none)
    → Represents slave.db g
      × (2 ^ 16 ≤ slave.db.size)
      × Grants ev'.env slave.db
      × (g (take 32 name) ≡ none)
    → take 32 name ≢ []
    → lib.scan (take 32 file) ≡ some (prefix, suffix)
    → (v : Bytes) × Returns (request_process lib conf ev s) (λ s'.
        (s'.task ≡ task_wait_noop)
        × Represents s'.db (update f (take 32 name) (some v))
        × Forwards (add_text server name file offset size) s')
      × Returns (request_process lib conf' ev' slave) (λ t.
        Represents t.db (update g (take 32 name) (some v))
        × Sending slave.sent (bytes "1000 ok" ++ crlf) t)
request_process-Replicated lib conf conf' ev ev' s slave server name file offset size {f} {g} prefix
      suffix adds adds' master is_slave reaches here (rep', wide', grants', new') k scanned =
    let fb = added_file lib conf ev s server name file offset size adds in
    let (t, run', (sending, _, there)) =
      (request_process-Added lib conf' ev' slave server name file offset size adds' {f = g} prefix
          suffix is_slave rep' wide' k grants' scanned).0
        new' in
    (
      fbm_bytes (kept fb prefix suffix),
      request_process-Forwards lib conf ev s server name file offset size adds {f = f} prefix suffix
          master reaches here k scanned,
      (t, run', (there, sending)),
    )

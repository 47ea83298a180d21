-- ===== src/DataServer/NameClient/Registered.antt =====
-- A name server understands what data_server/name_server_api.c writes.
use mathlib.Core.Path.{subst}
use tdss.Common.{
  ℕ, ◌%◌, ◌^◌, ◌≤◌, ◌<◌, ◌≡◌, ◌≢◌, refl, sym, ◌∙◌, Bool, true, false, Option, none, some, List, [],
  take, arith, Bytes, bytes,
}
use tdss.Config.{Addr, NameServer, ns_get_master_addr}
use tdss.DataServer.NameClient.{Uploader, info_line, ns_file_info, ns_file_info_add}
use tdss.NameServer.FblockMem.{FblockMem, Fblock, fbm_bytes}
use tdss.NameServer.Index.{kept}
use tdss.NameServer.Process.Added.{Adds, sent_file}
use tdss.Hashdb.Enter.{update}
use tdss.Hashdb.Holds.{Represents}
use tdss.Hashdb.Insert.{Grants}
use tdss.NameServer.Process.{request_process}
use tdss.NameServer.Process.Forwarded.{add_text, Reaches, request_process-Forwards}
use tdss.NameServer.Session.{
  session_write, task_wait_write, Child, Server, Lib, NameServerConf, Event,
}
use tdss.Run.{Returns, ok}
use tdss.Strings.{unused}
use tdss.Strings.Contents.{IsText, Gives, string_printf-Holds}

info_line-add_text :
    (lib : Lib) (base : Bytes → Bytes) (id : ℕ) (fb : Fblock)
    → info_line lib base (bytes "file_info_add") id fb
      ≡ add_text
          (lib.signed id)
          fb.name
          (base fb.file)
          (lib.unsigned fb.offset)
          (lib.signed fb.size)
unfolding info_line
info_line-add_text lib base id fb = refl

-- The master for the name can be reached, and there is memory for the connection to it.
abbrev pub Connects : Lib → List NameServer → Event → Bytes → Type 0
Connects lib servers ev name =
    (addr : Addr) × (ns_get_master_addr lib.crc servers name ≡ ok addr)
    × (ev.connects addr ≡ true)
    × (ev.session_mem ≡ true)
    × (ev.added ≡ true)

-- The connection to the name server has the text to send.
abbrev pub Tells : Bytes → Bool × Option Child → Type 0
Tells text r =
    (c : Child) × (r ≡ (true, some c))
    × IsText c.output text
    × (c.output.idx ≡ 0)
    × (c.state ≡ session_write)
    × (c.task ≡ task_wait_write)

pub ns_file_info_add-Tells :
    (lib : Lib) (base : Bytes → Bytes) (servers : List NameServer) (id : ℕ) (ev : Event)
    (s : Uploader)
    → Gives lib.memory
    → Connects lib servers ev s.fb_info.name
    → Returns (ns_file_info_add lib base servers id ev s) (
        Tells (
          add_text
            (lib.signed id)
            s.fb_info.name
            (base s.fb_info.file)
            (lib.unsigned s.fb_info.offset)
            (lib.signed s.fb_info.size)))
unfolding ns_file_info_add ns_file_info
ns_file_info_add-Tells lib base servers id ev s gives (addr, master, connects, mem, added) =
    let line = info_line lib base (bytes "file_info_add") id s.fb_info in
    let (r, print, ((fine, holds), start)) =
      string_printf-Holds lib.memory unused line gives refl in
    let child : Child = record {
      state = session_write;
      receives = false;
      task = task_wait_write;
      input = unused;
      output = r.1;
    } in
    (
      (true, some child),
      rw master (rw connects (rw mem (rw print (rw added refl)))),
      (
        child,
        refl,
        subst (IsText r.1) (info_line-add_text lib base id s.fb_info) holds,
        start,
        refl,
        refl,
      ),
    )

-- What the name server keeps of a file that lies at a place of a data server.
abbrev pub placed : ℕ → Fblock → ℕ → ℕ → FblockMem
placed id fb prefix suffix = record {
  server = id;
  ref = 1;
  size = fb.size;
  prefix = prefix;
  suffix = suffix;
  offset = fb.offset;
}

twice : (a n : ℕ) → a ≡ n → n < 2 ^ 32 → a % 2 ^ 32 % 2 ^ 32 ≡ n
twice a n e less = omega (arith, e, less)

cut : (a n : ℕ) → a ≡ n → n < 2 ^ 16 → a % 2 ^ 32 % 2 ^ 16 ≡ n
cut a n e less = omega (arith, e, less)

word_kept : (n : ℕ) → n < 2 ^ 32 → n % 2 ^ 32 ≡ n
word_kept n less = omega (arith, less)

-- The numbers are printed so that `atoi` reads them back, and fit the fields of the index.
pub record Printable (lib : Lib) (base : Bytes → Bytes) (id : ℕ) (fb : Fblock) (prefix suffix : ℕ)
    : Type 0 where
  pub server : lib.libc.atoi (lib.signed id) ≡ id
  pub offset : lib.libc.atoi (lib.unsigned fb.offset) ≡ fb.offset
  pub size : lib.libc.atoi (lib.signed fb.size) ≡ fb.size
  pub server_fits : id < 2 ^ 16
  pub offset_fits : fb.offset < 2 ^ 32
  pub size_fits : fb.size < 2 ^ 32
  pub prefix_fits : prefix < 2 ^ 32
  pub suffix_fits : suffix < 2 ^ 16
  pub name : take 32 fb.name ≡ fb.name
  pub scanned : lib.scan (take 32 (base fb.file)) ≡ some (prefix, suffix)

kept-placed :
    (lib : Lib) (base : Bytes → Bytes) (id ref : ℕ) (fb : Fblock) (prefix suffix : ℕ)
    → Printable lib base id fb prefix suffix
    → kept
        (sent_file lib
          (lib.signed id)
          fb.name
          (base fb.file)
          (lib.unsigned fb.offset)
          (lib.signed fb.size)
          ref)
        prefix
        suffix
      ≡ placed id fb prefix suffix
kept-placed lib base id ref fb prefix suffix p = λ i. record {
  server = cut _ id p.server p.server_fits i;
  ref = 1;
  size = twice _ fb.size p.size p.size_fits i;
  prefix = word_kept prefix p.prefix_fits i;
  suffix = word_kept suffix (omega (arith, p.suffix_fits)) i;
  offset = twice _ fb.offset p.offset p.offset_fits i;
}

-- A data server that has stored a file tells the master name server where it lies, and the name
-- server understands it: with memory and a master that can be reached, the connection to it has the
-- command to send; and a master that is sent those bytes, with a slave that can be reached, under
-- the conditions for adding a file under a new name, keeps exactly the file's server, place and
-- size, and a count of 1. The numbers are those that `atoi` reads back from what was printed and
-- that fit the index's fields.
pub ns_file_info_add-Registered :
    (lib : Lib) (base : Bytes → Bytes) (masters : List NameServer) (id : ℕ) (ev ev' : Event)
    (u : Uploader) (conf : NameServerConf) (s : Server) {f : Bytes → Option Bytes}
    (prefix suffix : ℕ)
    → Connects lib masters ev u.fb_info.name
    → Printable lib base id u.fb_info prefix suffix
    → Adds lib ev' s
        (lib.signed id)
        u.fb_info.name
        (base u.fb_info.file)
        (lib.unsigned u.fb_info.offset)
        (lib.signed u.fb_info.size)
    → conf.server_type ≢ 2
    → Reaches lib conf ev' (take 32 u.fb_info.name)
    → Represents s.db f
      × (2 ^ 16 ≤ s.db.size)
      × Grants ev'.env s.db
      × (f (take 32 u.fb_info.name) ≡ none)
    → u.fb_info.name ≢ []
    → Returns (ns_file_info_add lib base masters id ev u) (
        Tells (
          add_text
            (lib.signed id)
            u.fb_info.name
            (base u.fb_info.file)
            (lib.unsigned u.fb_info.offset)
            (lib.signed u.fb_info.size)))
      × Returns (request_process lib conf ev' s) (λ s'.
        Represents s'.db
          (update f u.fb_info.name (some (fbm_bytes (placed id u.fb_info prefix suffix)))))
ns_file_info_add-Registered lib base masters id ev ev' u conf s {f} prefix suffix connects prints
      adds master reaches table ne =
    let fb = u.fb_info in
    let (s', run, (_, rep, _)) =
      request_process-Forwards lib conf ev' s (lib.signed id) fb.name (base fb.file)
        (lib.unsigned fb.offset) (lib.signed fb.size) adds {f = f} prefix suffix master reaches
        table (λ e. ne (sym prints.name ∙ e)) prints.scanned in
    (
      ns_file_info_add-Tells lib base masters id ev u adds.asked.memory connects,
      (
        s',
        run,
        subst (λ (b : FblockMem). Represents s'.db (update f fb.name (some (fbm_bytes b))))
            (kept-placed lib base id s.session.fb.ref fb prefix suffix prints)
            (subst
              (λ (k : Bytes). Represents s'.db (
                update f k (
                  some (
                    fbm_bytes (
                      kept
                        (sent_file lib (lib.signed id) fb.name (base fb.file)
                          (lib.unsigned fb.offset) (lib.signed fb.size) s.session.fb.ref)
                        prefix suffix)))))
              prints.name rep),
      ),
    )

-- ===== src/Tests/Registered.antt =====
-- An instance for data_server/name_server_api.c and the name server together.
use tdss.Common.{
  refl, some, arith, Bytes, bytes, ◌≡◌, ◌≢◌, ◌<◌, ◌≤◌, [], ◌∷◌, ◌++◌, map, length, take,
}
use tdss.Config.{element, ns_index, ns_get_master_addr}
use mathlib.Core.List.{flatten}
use tdss.DataServer.NameClient.{Uploader, ns_file_info_add, ns_recv}
use tdss.DataServer.NameClient.Answered.{Told, ns_recv-Told}
use tdss.DataServer.NameClient.Registered.{
  Connects, Tells, placed, Printable, ns_file_info_add-Registered,
}
use tdss.Hashdb.Enter.{update}
use tdss.Hashdb.Holds.{Represents}
use tdss.Hashdb.Restart.{nothing}
use tdss.NameServer.FblockMem.{Fblock, fbm_bytes}
use tdss.NameServer.Process.{request_process}
use tdss.NameServer.Process.Added.{Adds}
use tdss.NameServer.Process.Forwarded.{add_text}
use tdss.NameServer.Session.{Event, got, failed, session_read, session_wait, task_wait_noop}
use tdss.Run.{Returns}
use tdss.Strings.{unused}
use tdss.Tests.Replies.{child, chunks, lib, decimal, idle, event}
use tdss.Tests.Strings.{sevens-Gives, unused-IsText}
use tdss.Tests.Request.{digits}
use tdss.Tests.Sessions.{sends, add_bytes, adds, master_conf, master_conf-Reaches}
use tdss.Tests.Tables.{grants-Grants, large-Synced, red, red-ne}

abbrev stored : Fblock
stored = record { server = 0; size = 500; offset = 20; ref = 0; name = red; file = bytes "4d.3" }

abbrev uploader : Uploader
uploader = record { state = session_wait; task = task_wait_noop; fb_info = stored; output = unused }

abbrev base : Bytes → Bytes
base path = path

connects : Connects lib master_conf.servers event red
unfolding ns_get_master_addr ns_index element
connects = (record { ip = bytes "10.0.0.1"; port = 1 }, refl, refl, refl, refl)

printable : Printable lib base 1 stored 77 3
unfolding digits decimal
printable = record {
  server = refl;
  offset = refl;
  size = refl;
  server_fits = omega arith;
  offset_fits = omega arith;
  size_fits = omega arith;
  prefix_fits = omega arith;
  suffix_fits = omega arith;
  name = refl;
  scanned = refl;
}

printed :
    Adds lib
      (sends add_bytes)
      idle
      (decimal 10 1)
      red
      (bytes "4d.3")
      (decimal 10 20)
      (decimal 10 500)
unfolding decimal
printed = adds

ns_file_info_add-Registered_example :
    Returns
      (ns_file_info_add lib base master_conf.servers 1 event uploader)
      (Tells (add_text (decimal 10 1) red (bytes "4d.3") (decimal 10 20) (decimal 10 500)))
    × Returns
        (request_process lib master_conf (sends add_bytes) idle)
        (λ s'. Represents s'.db (update nothing red (some (fbm_bytes (placed 1 stored 77 3)))))
ns_file_info_add-Registered_example =
    ns_file_info_add-Registered lib base master_conf.servers 1 event (sends add_bytes) uploader
      master_conf idle 77 3 connects printable printed (λ e. omega arith) master_conf-Reaches
      (large-Synced.represents, large-Synced.wide, grants-Grants 0, refl) red-ne

abbrev name_answers : Event
name_answers = record event { reads = got (bytes "10") ∷ got (bytes "00 ok") ∷ [] }

chunks_short : length (flatten chunks) ≤ 32768
unfolding flatten
chunks_short = omega arith

ns_recv-Told_example :
    ((tail : Bytes)
      → name_answers.reads ≡ map got chunks
      → flatten chunks ≡ bytes "1000" ++ tail
      → Returns
          (ns_recv lib name_answers child uploader)
          (Told (bytes "1000 success name:" ++ red)))
    × (name_answers.reads ≡ map got chunks
        → length (flatten chunks) < 4
        → Returns
            (ns_recv lib name_answers child uploader)
            (Told (bytes "-1014 save to name server error")))
    × (name_answers.reads ≡ map got chunks
        → 4 ≤ length (flatten chunks)
        → take 4 (flatten chunks) ≢ bytes "1000"
        → Returns
            (ns_recv lib name_answers child uploader)
            (Told (bytes "-1015 save to name server error")))
    × (name_answers.reads ≡ map got chunks ++ failed ∷ []
        → child.state ≡ session_read
        → Returns
            (ns_recv lib name_answers child uploader)
            (Told (bytes "-1013 save to name server error")))
ns_recv-Told_example =
    ns_recv-Told lib name_answers uploader child chunks sevens-Gives refl unused-IsText chunks_short

-- ===== src/Tests/Sessions.antt =====
-- Instances for whole commands in name_server/process.c and command.c.
use mathlib.Core.List.{flatten}
use tdss.Common.{
  ℕ, ◌+◌, ◌%◌, ◌^◌, ◌<◌, ◌≡◌, ◌≢◌, refl, true, some, none, inl, [], ◌∷◌, ◌++◌, arith, length, Bytes,
  bytes, bytes_eq,
}
use tdss.Hashdb.Enter.{update}
use tdss.Hashdb.Holds.{Represents}
use tdss.Hashdb.Restart.{nothing}
use tdss.NameServer.Command.{text_arg, name_args, info_args, find_command, info_text}
use tdss.NameServer.FblockMem.{FblockMem, Fblock, fbm_bytes, fbm_of}
use tdss.NameServer.Index.{kept}
use tdss.NameServer.Process.{request_process}
use tdss.NameServer.Process.Added.{add_fields, Adds, sent_file, request_process-Added}
use tdss.NameServer.Process.Got.{Gets}
use tdss.NameServer.Process.Shared.{with_db, request_process-Shared}
use tdss.Config.{element, ns_index, ns_get_slave_addr}
use tdss.NameServer.Process.Forwarded.{Reaches, Forwards, add_text, request_process-Replicated}
use tdss.NameServer.Process.Refused.{named, request_process-Refused}
use tdss.NameServer.Process.Request.{Asked, Unspaced, request_process-overflow}
use tdss.NameServer.Process.Sends.{Sending}
use tdss.NameServer.Session.{NameServerConf, task_wait_write, task_wait_noop, got, Event, crlf}
use tdss.Request.{ends, find_arg}
use tdss.Request.Command.{Good, message, InOrder}
use tdss.Request.Fields.{Word, is_word, is_word-Word}
use tdss.Run.{Returns, fault}
use tdss.Tests.Replies.{lib, slave_conf, idle, event}
use tdss.Tests.Request.{digits}
use tdss.Tests.Strings.{sevens-Gives}
use tdss.Tests.Tables.{grants-Grants, large, large-Synced, red, red-ne}

-- The client has sent the text at once.
abbrev pub sends : Bytes → Event
sends text = record event { reads = got text ∷ [] }

sends-Asked : (text : Bytes) → flatten (text ∷ []) ≡ text → Asked lib (sends text) idle text
sends-Asked text one = record {
  memory = sevens-Gives;
  waiting = refl;
  input = refl;
  output = refl;
  chunks = text ∷ [];
  reads = refl;
  whole = one;
}

pub Word-Unspaced : (w : Bytes) → Word w → Unspaced lib w
Word-Unspaced [] word = tt
Word-Unspaced (c ∷ w) ((_, _, inside), word) = (inside, Word-Unspaced w word)

abbrev dec_text : Bytes
dec_text = bytes "file_ref_dec" ++ 32 ∷ message (named red ∷ []) (10 ∷ [])

named-Good : Good (named red)
unfolding ends
named-Good = (
  is_word-Word (bytes "name") refl,
  is_word-Word red refl,
  λ e. cc,
  λ e. cc,
  omega arith,
  omega arith,
  refl,
)

named_of_seven : InOrder lib.libc name_args 7 0 (named red ∷ [])
unfolding find_arg bytes_eq
named_of_seven = (named-Good, refl, tt)

request_process-Refused_example :
    Returns (request_process lib slave_conf (sends dec_text) idle) λ s'.
      Sending [] (bytes "-1001 request parse error" ++ crlf) s'
      × (s'.task ≡ task_wait_write)
      × (s'.db ≡ large)
unfolding ends find_command flatten bytes_eq
request_process-Refused_example =
    request_process-Refused lib slave_conf (sends dec_text) idle 102 (bytes "ile_ref_dec") red
      (sends-Asked dec_text refl) (is_word-Word (bytes "file_ref_dec") refl)
      (Word-Unspaced (bytes "file_ref_dec") (is_word-Word (bytes "file_ref_dec") refl))
      (omega arith) refl named_of_seven (inl refl)

-- 65 bytes and no space
abbrev long_word : Bytes
long_word = bytes "aaaaaaaaaaaaaaaaaaaaaaaaaaaaaaaaaaaaaaaaaaaaaaaaaaaaaaaaaaaaaaaa"

request_process-overflow_example :
    request_process lib slave_conf (sends (long_word ++ 97 ∷ 10 ∷ [])) idle ≡ fault
unfolding ends flatten
request_process-overflow_example =
    request_process-overflow lib slave_conf (sends (long_word ++ 97 ∷ 10 ∷ [])) idle long_word 97
      (10 ∷ []) (sends-Asked (long_word ++ 97 ∷ 10 ∷ []) refl)
      (Word-Unspaced long_word (is_word-Word long_word refl)) refl refl (omega arith)

abbrev pub add_bytes : Bytes
add_bytes =
    bytes "file_info_add"
    ++ 32 ∷ message (add_fields (bytes "1") red (bytes "4d.3") (bytes "20") (bytes "500")) (10 ∷ [])

pub field-Good :
    (key val : Bytes) (stop : ℕ)
    → is_word key ≡ true
    → is_word val ≡ true
    → key ≢ []
    → val ≢ []
    → length key < 128
    → length val < 1024
    → ends stop ≡ true
    → Good (record { arg = text_arg key; key = key; val = val; stop = stop })
field-Good key val stop word word' ne ne' short short' last =
    (is_word-Word key word, is_word-Word val word', ne, ne', short, short', last)

add-InOrder :
    InOrder lib.libc info_args 5 0
      (add_fields (bytes "1") red (bytes "4d.3") (bytes "20") (bytes "500"))
unfolding find_arg bytes_eq ends
add-InOrder = (
  field-Good (bytes "server") (bytes "1") 32 refl refl (λ e. cc) (λ e. cc) (omega arith)
      (omega arith) refl,
  refl,
  (
    field-Good (bytes "name") red 32 refl refl (λ e. cc) (λ e. cc) (omega arith) (omega arith) refl,
    refl,
    (
      field-Good (bytes "file") (bytes "4d.3") 32 refl refl (λ e. cc) (λ e. cc) (omega arith)
          (omega arith) refl,
      refl,
      (
        field-Good (bytes "offset") (bytes "20") 32 refl refl (λ e. cc) (λ e. cc) (omega arith)
            (omega arith) refl,
        refl,
        (
          field-Good (bytes "size") (bytes "500") 13 refl refl (λ e. cc) (λ e. cc) (omega arith)
              (omega arith) refl,
          refl,
          tt,
        ),
      ),
    ),
  ),
)

pub adds : Adds lib (sends add_bytes) idle (bytes "1") red (bytes "4d.3") (bytes "20") (bytes "500")
unfolding find_command flatten bytes_eq ends
adds = record {
  asked = sends-Asked add_bytes refl;
  fields = add-InOrder;
  unspaced = Word-Unspaced (bytes "file_info_add") (is_word-Word (bytes "file_info_add") refl);
  space = refl;
  found = refl;
}

abbrev stored : Fblock
stored = sent_file lib (bytes "1") red (bytes "4d.3") (bytes "20") (bytes "500") 0

request_process-Added_example :
    (nothing red ≡ none
      → Returns (request_process lib slave_conf (sends add_bytes) idle) λ s'.
        Sending [] (bytes "1000 ok" ++ crlf) s'
        × (s'.task ≡ task_wait_write)
        × Represents s'.db (update nothing red (some (fbm_bytes (kept stored 77 3)))))
    × ((old : Bytes) (b : FblockMem)
        → nothing red ≡ some old
        → fbm_of old ≡ some b
        → Returns (request_process lib slave_conf (sends add_bytes) idle) λ s'.
          Sending [] (bytes "1000 ok" ++ crlf) s'
          × (s'.task ≡ task_wait_write)
          × Represents s'.db
              (update nothing red (some (fbm_bytes (record b { ref = (b.ref + 1) % 2 ^ 32 })))))
request_process-Added_example =
    request_process-Added lib slave_conf (sends add_bytes) idle (bytes "1") red (bytes "4d.3")
      (bytes "20") (bytes "500") adds 77 3 refl large-Synced.represents large-Synced.wide red-ne
      (grants-Grants 0) refl

abbrev get_text : Bytes
get_text = bytes "file_info_get" ++ 32 ∷ message (named red ∷ []) (10 ∷ [])

gets : Gets lib (sends get_text) idle red
unfolding find_command flatten bytes_eq ends find_arg
gets = record {
  asked = sends-Asked get_text refl;
  fields = (named-Good, refl, tt);
  unspaced = Word-Unspaced (bytes "file_info_get") (is_word-Word (bytes "file_info_get") refl);
  space = refl;
  found = refl;
}

request_process-Shared_example :
    Returns (request_process lib slave_conf (sends add_bytes) idle) λ added.
      Returns (request_process lib slave_conf (sends get_text) (with_db idle added.db)) λ got.
        Sending []
          (info_text lib (record {
            server = 1;
            size = 500;
            offset = 20;
            ref = 1;
            name = red;
            file = 77 ∷ 3 ∷ [];
          })
            ++ crlf)
          got
unfolding digits
request_process-Shared_example =
    request_process-Shared lib slave_conf (sends add_bytes) (sends get_text) idle idle (bytes "1")
      red (bytes "4d.3") (bytes "20") (bytes "500") 77 3 adds refl large-Synced.represents
      large-Synced.wide red-ne (grants-Grants 0) refl refl gets

abbrev pub master_conf : NameServerConf
master_conf = record {
  server_id = 1;
  server_type = 1;
  servers =
      (record {
        master = record { ip = bytes "10.0.0.1"; port = 1 };
        slave = record { ip = bytes "10.0.0.2"; port = 1 };
      })
      ∷ [];
}

pub master_conf-Reaches : Reaches lib master_conf (sends add_bytes) red
unfolding ns_get_slave_addr ns_index element
master_conf-Reaches = (record { ip = bytes "10.0.0.2"; port = 1 }, refl, refl, refl, refl)

request_process-Replicated_example :
    (v : Bytes) × Returns (request_process lib master_conf (sends add_bytes) idle) (λ s'.
      (s'.task ≡ task_wait_noop)
      × Represents s'.db (update nothing red (some v))
      × Forwards (add_text (bytes "1") red (bytes "4d.3") (bytes "20") (bytes "500")) s')
    × Returns (request_process lib slave_conf (sends add_bytes) idle) (λ t.
      Represents t.db (update nothing red (some v)) × Sending [] (bytes "1000 ok" ++ crlf) t)
request_process-Replicated_example =
    request_process-Replicated lib master_conf slave_conf (sends add_bytes) (sends add_bytes) idle
      idle (bytes "1") red (bytes "4d.3") (bytes "20") (bytes "500") 77 3 adds adds
      (λ e. omega arith) refl master_conf-Reaches
      (large-Synced.represents, large-Synced.wide, grants-Grants 0, refl)
      (large-Synced.represents, large-Synced.wide, grants-Grants 0, refl) red-ne refl

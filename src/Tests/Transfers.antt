-- ===== src/Tests/Transfers.antt =====
-- Instances for data_server/process.c: a file that is uploaded and fetched again.
use mathlib.Core.List.{flatten}
use tdss.Common.{
  ℕ, zero, suc, ◌%◌, ◌^◌, ◌≡◌, refl, true, none, some, List, [], ◌∷◌, ◌++◌, map, arith, Bytes,
  bytes, bytes_eq,
}
use tdss.Config.{element, ns_index, ns_get_master_addr}
use tdss.DataServer.Command.{add_args, get_args, find_file_command}
use tdss.DataServer.Download.{sent}
use tdss.DataServer.NameClient.{no_fb}
use tdss.DataServer.NameClient.Registered.{Connects}
use tdss.DataServer.Process.Accepted.{name_field, size_field, upload_text, Uploads}
use tdss.DataServer.Process.Fetched.{file_fields, download_text, Downloads, opened_text}
use tdss.DataServer.Process.Heard.{Told}
use tdss.DataServer.Process.Received.{Comes}
use tdss.DataServer.Process.RoundTrip.{joined, file_calls-round_trip}
use tdss.DataServer.Process.Saved.{file_calls, Parts}
use tdss.DataServer.Process.Uploaded.{Room, Uploaded, file_calls-Uploaded}
use tdss.DataServer.Session.{FileServer, FileLib, DataServerConf, FileEvent}
use tdss.DataServer.Upload.{Recv, line, again}
use tdss.NameServer.Session.{session_begin, task_wait_read, got, wrote, crlf}
use tdss.Request.{ends, find_arg}
use tdss.Request.Command.{InOrder}
use tdss.Request.Fields.{is_word-Word}
use tdss.Run.{Returns, ◌>>=◌}
use tdss.Strings.{unused}
use tdss.Tests.Replies.{lib, event}
use tdss.Tests.Request.{digits}
use tdss.Tests.Sessions.{Word-Unspaced, field-Good, master_conf}
use tdss.Tests.Strings.{sevens-Gives}
use tdss.Tests.Tables.{red}

-- A buffer of two bytes
abbrev files_lib : FileLib
files_lib = record { lib = lib; base = λ path. path; bufsiz = 2 }

abbrev data_conf : DataServerConf
data_conf = record {
  server_id = 1;
  disk_id = 0;
  data_path = bytes "d";
  max_block_size = 1000;
  servers = master_conf.servers;
}

abbrev block_path : Bytes
block_path = bytes "d/4d.3"

-- One block with 20 bytes given out
abbrev waiting : FileServer
waiting = record {
  session = record {
    state = session_begin;
    next = session_begin;
    request_id = 0;
    fb_info = no_fb;
    proc_size = 0;
    proc = none;
    input = unused;
    output = unused;
    bf = none;
    bf_buf = [];
  };
  task = task_wait_read;
  store = record {
    blocks = (record { state = 1; num = 1; size = 20; file_length = 20; is_open = true }) ∷ [];
    cbf = some 0;
  };
  names = λ i. block_path;
  files = λ path i. 0;
  child = none;
  sent = [];
}

abbrev quiet : FileEvent
quiet = record {
  net = event;
  recvs = λ n. again;
  rounds = 4;
  sendfiles = [];
  blocks = record { create_ok = true; truncate_ok = true };
  disk = record { seek_ok = true; write_ok = λ i. true };
  new_name = [];
  opens = λ path. true;
  statfs = none;
  error_text = [];
}

abbrev says : Bytes → FileEvent
says text = record quiet { net = record event { reads = got text ∷ [] } }

abbrev writes : ℕ → FileEvent
writes n = record quiet { net = record event { writes = wrote n ∷ [] } }

abbrev chunk_reads : Bytes → Bytes → ℕ → Recv
chunk_reads a b zero = line a
chunk_reads a b (suc zero) = line b
chunk_reads a b (suc (suc n)) = again

abbrev brings : Bytes → Bytes → FileEvent
brings a b = record quiet { recvs = chunk_reads a b }

says-Told : (text : Bytes) → flatten (text ∷ []) ≡ text → Told files_lib (says text) waiting text
says-Told text one = record {
  memory = sevens-Gives;
  waiting = refl;
  input = refl;
  output = refl;
  chunks = text ∷ [];
  reads = refl;
  whole = one;
}

add-InOrder : InOrder lib.libc add_args 2 0 (name_field red ∷ size_field (bytes "5") ∷ [])
unfolding find_arg bytes_eq ends
add-InOrder = (
  field-Good (bytes "name") red 32 refl refl (λ e. cc) (λ e. cc) (omega arith) (omega arith) refl,
  refl,
  (
    field-Good (bytes "size") (bytes "5") 13 refl refl (λ e. cc) (λ e. cc) (omega arith)
        (omega arith) refl,
    refl,
    tt,
  ),
)

get-InOrder :
    InOrder lib.libc get_args 4 0
      (name_field red ∷ file_fields (bytes "4d.3") (bytes "20") (bytes "5"))
unfolding find_arg bytes_eq ends
get-InOrder = (
  field-Good (bytes "name") red 32 refl refl (λ e. cc) (λ e. cc) (omega arith) (omega arith) refl,
  refl,
  (
    field-Good (bytes "file") (bytes "4d.3") 32 refl refl (λ e. cc) (λ e. cc) (omega arith)
        (omega arith) refl,
    refl,
    (
      field-Good (bytes "offset") (bytes "20") 32 refl refl (λ e. cc) (λ e. cc) (omega arith)
          (omega arith) refl,
      refl,
      (
        field-Good (bytes "size") (bytes "5") 13 refl refl (λ e. cc) (λ e. cc) (omega arith)
            (omega arith) refl,
        refl,
        tt,
      ),
    ),
  ),
)

abbrev add_says : FileEvent
add_says = says (upload_text red (bytes "5"))

abbrev get_says : FileEvent
get_says = says (download_text red (bytes "4d.3") (bytes "20") (bytes "5"))

uploads : Uploads files_lib add_says waiting red (bytes "5")
unfolding find_file_command flatten bytes_eq ends
uploads = record {
  told = says-Told (upload_text red (bytes "5")) refl;
  fields = add-InOrder;
  unspaced = Word-Unspaced (bytes "file_add") (is_word-Word (bytes "file_add") refl);
  space = refl;
  found = refl;
}

downloads : Downloads files_lib get_says waiting red (bytes "4d.3") (bytes "20") (bytes "5")
unfolding find_file_command flatten bytes_eq ends
downloads = record {
  told = says-Told (download_text red (bytes "4d.3") (bytes "20") (bytes "5")) refl;
  fields = get-InOrder;
  unspaced = Word-Unspaced (bytes "file_get") (is_word-Word (bytes "file_get") refl);
  space = refl;
  found = refl;
}

room : Room data_conf add_says waiting 0 (digits 0 (bytes "5") % 2 ^ 32)
unfolding digits
room = (refl, omega arith, omega arith, refl)

connects : Connects lib data_conf.servers (brings (4 ∷ []) (5 ∷ [])).net red
unfolding ns_get_master_addr ns_index element
connects = (record { ip = bytes "10.0.0.1"; port = 1 }, refl, refl, refl, refl)

comes : (a b : Bytes) → Comes (brings a b) (a ∷ b ∷ [])
comes a b = ((refl, λ i. refl), (refl, (refl, refl)), omega arith)

abbrev first_part : List (FileEvent × List Bytes)
first_part = (brings (1 ∷ 2 ∷ []) (3 ∷ []), (1 ∷ 2 ∷ []) ∷ (3 ∷ []) ∷ []) ∷ []

first_part-Parts : Parts first_part
first_part-Parts = (comes (1 ∷ 2 ∷ []) (3 ∷ []), tt)

abbrev last_part : FileEvent
last_part = brings (4 ∷ []) (5 ∷ [])

abbrev upload_events : List FileEvent
upload_events = add_says ∷ writes 25 ∷ (map (λ p. p.0) first_part ++ last_part ∷ [])

file_calls-Uploaded_example : Returns (file_calls files_lib data_conf upload_events waiting) (
    Uploaded files_lib data_conf add_says waiting red
      (bytes "5")
      uploads
      0
      room
      (1 ∷ 2 ∷ 3 ∷ 4 ∷ 5 ∷ []))
unfolding digits flatten
file_calls-Uploaded_example =
    file_calls-Uploaded files_lib data_conf add_says waiting red (bytes "5") uploads 0 room
      (writes 25) [] 24 first_part last_part ((4 ∷ []) ∷ (5 ∷ []) ∷ []) (omega arith) refl refl refl
      refl first_part-Parts (comes (4 ∷ []) (5 ∷ [])) (omega arith) refl connects

-- All five bytes are sent at once.
abbrev sends_five : FileEvent
sends_five = record quiet { sendfiles = sent 5 ∷ [] }

file_calls-round_trip_example :
    Returns
      (file_calls files_lib data_conf upload_events waiting >>= λ s'.
        file_calls files_lib data_conf (get_says ∷ writes 31 ∷ sends_five ∷ []) (joined waiting s'))
      (λ t'. t'.sent ≡ ([] ++ (opened_text block_path ++ crlf)) ++ (1 ∷ 2 ∷ 3 ∷ 4 ∷ 5 ∷ []))
unfolding digits flatten
file_calls-round_trip_example =
    file_calls-round_trip files_lib data_conf add_says waiting red (bytes "5") uploads 0 room
      (writes 25) [] 24 first_part last_part ((4 ∷ []) ∷ (5 ∷ []) ∷ []) waiting get_says (writes 31)
      sends_five (bytes "4d.3") (bytes "20") (bytes "5") downloads [] 30 (5 ∷ []) [] (omega arith)
      refl refl refl refl first_part-Parts (comes (4 ∷ []) (5 ∷ [])) (omega arith) refl connects
      refl refl refl refl refl refl refl refl refl

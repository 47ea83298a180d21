-- ===== src/DataServer/Process/RoundTrip.antt =====
-- What one client uploads to a data server, another gets back.
use mathlib.Core.List.{flatten}
use mathlib.Core.Path.{ap₂}
use tdss.Common.{
  ℕ, suc, ◌+◌, ◌%◌, ◌^◌, ◌<◌, ◌≡◌, refl, sym, ◌∙◌, true, false, List, [], ◌∷◌, ◌++◌, map, take,
  arith, length, get_or, ◌==◌, if◌then◌else◌, Bytes,
}
use tdss.DataServer.Blocks.{no_block}
use tdss.DataServer.Command.{truncated, read_path}
use tdss.DataServer.Download.{SendfileResult, section, sent, total}
use tdss.DataServer.NameClient.Registered.{Connects}
use tdss.DataServer.Process.Accepted.{Uploads}
use tdss.DataServer.Process.Fetched.{Downloads, opened_text, file_calls-Fetched}
use tdss.DataServer.Process.Received.{Comes}
use tdss.DataServer.Process.Saved.{file_calls, Parts, pieces}
use tdss.DataServer.Process.Uploaded.{Room, created_text, file_calls-Uploaded}
use tdss.DataServer.Session.{FileServer, FileLib, DataServerConf, FileEvent}
use tdss.DataServer.Upload.{splice}
use tdss.NameServer.Session.{Writing, wrote, crlf}
use tdss.Run.{Run, Returns, ok, ◌>>=◌}

other : (j i : ℕ) → j < i → (j == i) ≡ false
other j i h = ground arith

splice-below : (f : ℕ → ℕ) (i : ℕ) (bs : Bytes) (j : ℕ) → j < i → splice f i bs j ≡ f j
splice-below f i [] j h = refl
splice-below f i (b ∷ bs) j h =
    splice-below (λ k. if k == i then b else f k) (suc i) bs j (omega (arith, h))
    ∙ rw (other j i h) refl

here : (i : ℕ) → (i == i) ≡ true
here i = ground arith

-- What has been written at a place stands there.
section-splice : (f : ℕ → ℕ) (i : ℕ) (bs : Bytes) → section (splice f i bs) i (length bs) ≡ bs
section-splice f i [] = refl
section-splice f i (b ∷ bs) =
    let g : ℕ → ℕ = λ k. if k == i then b else f k in
    ap₂ (λ (c : ℕ) (cs : Bytes). c ∷ cs)
      (splice-below g (suc i) bs i (omega arith) ∙ rw (here i) refl) (section-splice g (suc i) bs)

-- Another connection to the server, which sees the same files.
abbrev pub joined : FileServer → FileServer → FileServer
joined t s = record t { store = s.store; names = s.names; files = s.files }

joined-Downloads :
    (l : FileLib) (ev : FileEvent) (t s : FileServer) (name file offset size : Bytes)
    → Downloads l ev t name file offset size
    → Downloads l ev (joined t s) name file offset size
joined-Downloads l ev t s name file offset size d = record {
  told = record {
    memory = d.told.memory;
    waiting = d.told.waiting;
    input = d.told.input;
    output = d.told.output;
    chunks = d.told.chunks;
    reads = d.told.reads;
    whole = d.told.whole;
  };
  fields = d.fields;
  unspaced = d.unspaced;
  space = d.space;
  found = d.found;
}

both :
    (first : Run FileServer) (rest : FileServer → Run FileServer) (s' t' : FileServer)
    → first ≡ ok s'
    → rest s' ≡ ok t'
    → (first >>= rest) ≡ ok t'
both first rest s' t' run next = rw run next

-- A client uploads a file to a data server with room in the current block, in any number of calls
-- and cut in any way, and another client asks for the bytes at the place that it was given, in the
-- file that holds the block: when the system does what is asked of it, both answers can be written at
-- once and the bytes can be sent in one call, the second client is sent the answer to its command
-- and then the file as it was uploaded.
pub file_calls-round_trip :
    (l : FileLib) (conf : DataServerConf) (ev : FileEvent) (s : FileServer) (name size : Bytes)
    (uploads : Uploads l ev s name size) (i : ℕ)
    (room : Room conf ev s i (l.lib.libc.atoi size % 2 ^ 32)) (answer : FileEvent)
    (ws : List Writing) (max : ℕ) (parts : List (FileEvent × List Bytes)) (last : FileEvent)
    (chunks : List Bytes) (t : FileServer) (get answer' send : FileEvent)
    (file offset size' : Bytes) (downloads : Downloads l get t name file offset size')
    (ws' : List Writing) (max' : ℕ) (ns : List ℕ) (ss : List SendfileResult)
    → 0 < l.bufsiz
    → s.session.proc_size ≡ 0
    → s.session.bf_buf ≡ []
    → answer.net.writes ≡ wrote (suc max) ∷ ws
    → suc max ≡ length (created_text (s.names i))
    → Parts parts
    → Comes last chunks
    → 0 < length (flatten chunks)
    → length (pieces parts ++ flatten chunks) ≡ l.lib.libc.atoi size % 2 ^ 32
    → Connects l.lib conf.servers last.net (take 32 name)
    → read_path conf (take 32 file) ≡ s.names i
    → l.lib.libc.atoi offset % 2 ^ 32 ≡ (get_or s.store.blocks i no_block).size
    → l.lib.libc.atoi size' % 2 ^ 32 ≡ l.lib.libc.atoi size % 2 ^ 32
    → get.opens (read_path conf (take 32 file)) ≡ true
    → answer'.net.writes ≡ wrote (suc max') ∷ ws'
    → suc max' ≡ length (opened_text (read_path conf (take 32 file)) ++ crlf)
    → send.disk.seek_ok ≡ true
    → send.sendfiles ≡ map sent ns ++ ss
    → total ns ≡ l.lib.libc.atoi size' % 2 ^ 32
    → Returns
        (file_calls l conf (ev ∷ answer ∷ (map (λ p. p.0) parts ++ last ∷ [])) s >>= λ s'.
          file_calls l conf (get ∷ answer' ∷ send ∷ []) (joined t s'))
        (λ t'.
          t'.sent
          ≡ (t.sent ++ (opened_text (s.names i) ++ crlf)) ++ (pieces parts ++ flatten chunks))
file_calls-round_trip l conf ev s name size uploads i room answer ws max parts last chunks t get
      answer' send file offset size' downloads ws' max' ns ss some_room none_yet empty writes all
      come comes some_more whole connects path place same open_ok writes' all' seek sendfiles
      total_sent =
    let at = (get_or s.store.blocks i no_block).size in
    let body = pieces parts ++ flatten chunks in
    let before = truncated (s.files (s.names i)) (at + l.lib.libc.atoi size % 2 ^ 32) in
    let (s', up, (_, stored, _)) =
      file_calls-Uploaded l conf ev s name size uploads i room answer ws max parts last chunks
        some_room none_yet empty writes all come comes some_more whole connects in
    let (t', down, (got, _, _, _, _)) =
      file_calls-Fetched l conf get (joined t s') name file offset size'
        (joined-Downloads l get t s' name file offset size' downloads) answer' send ws' max' ns ss
        open_ok writes' all' seek sendfiles total_sent in
    (
      t',
      both _ _ s' t' up down,
      got
          ∙ ap₂ (λ (p body' : Bytes). (t.sent ++ (opened_text p ++ crlf)) ++ body') path
              (ap₂ (λ (p : Bytes) (o : ℕ). section (s'.files p) o (l.lib.libc.atoi size' % 2 ^ 32))
                  path place
                ∙ ap₂ (λ (f : ℕ → ℕ) (n : ℕ). section f at n) stored (same ∙ sym whole)
                ∙ section-splice before at body),
    )

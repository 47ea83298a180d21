-- ===== src/DataServer/Download/Calls.antt =====
-- What one call and two calls of `__file_get_loop_send` of data_server/command.c send.
use mathlib.Core.List.{append_assoc, append-nil}
use mathlib.Core.Path.{ap₂}
use tdss.Common.{
  ℕ, zero, suc, ◌+◌, ◌<◌, ◌≤◌, ◌≡◌, refl, sym, ◌∙◌, ap, inl, inr, Bool-cases, true, false, List, [],
  ◌∷◌, ◌++◌, map, ltb, lt→ltb, ◌==◌, arith, Bytes,
}
use tdss.DataServer.Download.{
  SendfileResult, sent, again, section, stopped, sendfile_loop, Download, Outcome, next_write,
  session_begin, finish_send, file_get_loop_send, total,
}

suc_shift : (i n : ℕ) → i + suc n ≡ suc i + n
suc_shift i n = omega arith

suc_add : (n k : ℕ) → suc (n + k) ≡ suc n + k
suc_add n k = omega arith

add_zero : (n : ℕ) → n + 0 ≡ n
add_zero n = omega arith

zero_add : (n : ℕ) → n ≡ 0 + n
zero_add n = omega arith

section-add :
    (content : ℕ → ℕ) (i n k : ℕ)
    → section content i n ++ section content (i + n) k ≡ section content i (n + k)
section-add content i zero k = ap₂ (λ (a b : ℕ). section content a b) (add_zero i) (zero_add k)
section-add content i (suc n) k =
    ap (λ (l : Bytes). content i ∷ l)
      (ap (λ a. section content (suc i) n ++ section content a k) (suc_shift i n)
        ∙ section-add content (suc i) n k)
    ∙ ap (λ a. section content i a) (suc_add n k)

all_sent :
    (ss : List SendfileResult) (content : ℕ → ℕ) (of size proc_size : ℕ) (out : Bytes)
    → ltb proc_size size ≡ false
    → sendfile_loop ss content of size proc_size out ≡ stopped proc_size out
unfolding sendfile_loop
all_sent [] content of size proc_size out e = refl
all_sent (s ∷ ss) content of size proc_size out e = rw (e, sendfile_loop) refl

one_sent :
    (n : ℕ) (ss : List SendfileResult) (content : ℕ → ℕ) (of size proc_size : ℕ) (out : Bytes)
    → ltb proc_size size ≡ true
    → sendfile_loop (sent n ∷ ss) content of size proc_size out
      ≡ sendfile_loop ss content (of + n) size (proc_size + n) (out ++ section content of n)
unfolding sendfile_loop
one_sent n ss content of size proc_size out e = rw (e, sendfile_loop) refl

same_loop :
    (ss : List SendfileResult) (content : ℕ → ℕ) (size : ℕ) {of of' proc_size proc_size' : ℕ}
    {out out' : Bytes}
    → of ≡ of'
    → proc_size ≡ proc_size'
    → out ≡ out'
    → sendfile_loop ss content of size proc_size out
      ≡ sendfile_loop ss content of' size proc_size' out'
same_loop ss content size {of'} {proc_size} {proc_size'} {out} {out'} e e' e'' =
    ap (λ o. sendfile_loop ss content o size proc_size out) e
    ∙ ap (λ p. sendfile_loop ss content of' size p out) e'
    ∙ ap (λ (l : Bytes). sendfile_loop ss content of' size proc_size' l) e''

nothing_sent :
    (ss : List SendfileResult) (content : ℕ → ℕ) (of size proc_size k : ℕ) (out : Bytes)
    → k ≡ 0
    → sendfile_loop ss content of size proc_size out
      ≡ sendfile_loop ss content (of + k) size (proc_size + k) (out ++ section content of k)
nothing_sent ss content of size proc_size k out e =
    same_loop ss content size (omega (arith, e)) (omega (arith, e))
      (sym (append-nil out) ∙ ap (λ n. out ++ section content of n) (sym e))

at_end : (p size : ℕ) → ltb p size ≡ false → size ≤ p
at_end p size e = ground (arith, e)

-- A run of pieces in one call sends one section of the file.
sendfile_loop-section :
    (ns : List ℕ) (ss : List SendfileResult) (content : ℕ → ℕ) (of size proc_size : ℕ) (out : Bytes)
    → proc_size + total ns ≤ size
    → sendfile_loop (map sent ns ++ ss) content of size proc_size out
      ≡ sendfile_loop ss content
          (of + total ns)
          size
          (proc_size + total ns)
          (out ++ section content of (total ns))
sendfile_loop-section [] ss content of size proc_size out le =
    nothing_sent ss content of size proc_size 0 out refl
sendfile_loop-section (n ∷ ns) ss content of size proc_size out le =
    elim (Bool-cases (ltb proc_size size)) [
      | inl less ↦
          one_sent n (map sent ns ++ ss) content of size proc_size out less
          ∙ sendfile_loop-section ns ss content (of + n) size (proc_size + n)
              (out ++ section content of n) (omega (arith, le))
          ∙ same_loop ss content size (omega arith) (omega arith) (
              append_assoc out (section content of n) (section content (of + n) (total ns))
              ∙ ap (λ (l : Bytes). out ++ l) (section-add content of n (total ns)))
      | inr done ↦
          all_sent (sent n ∷ (map sent ns ++ ss)) content of size proc_size out done
          ∙ sym (all_sent ss content of size proc_size out done)
          ∙ nothing_sent ss content of size proc_size (n + total ns) out
              (omega (arith, le, at_end proc_size size done))
    ]

again_stops :
    (ss : List SendfileResult) (content : ℕ → ℕ) (of size proc_size : ℕ) (out : Bytes)
    → proc_size < size
    → sendfile_loop (again ∷ ss) content of size proc_size out ≡ stopped proc_size out
unfolding sendfile_loop
again_stops ss content of size proc_size out less =
    rw (lt→ltb proc_size size less, sendfile_loop) refl

same_size : (size p : ℕ) → size ≡ p → (size == p) ≡ true
same_size size p e = ground (arith, e)

not_all : (size p : ℕ) → p < size → (size == p) ≡ false
not_all size p less = ground arith

end_reached : (p size : ℕ) → p ≡ size → ltb p size ≡ false
end_reached p size e = ground (arith, e)

abbrev after_all : Bytes → Outcome × Download × Bytes
after_all out = (session_begin, record { size = 0; offset = 0; proc_size = 0 }, out)

-- The bytes of the file that are sent in one call that starts with `proc_size` bytes sent: when the
-- pieces make up what is left, the download is complete; when they are fewer and then no more can be
-- sent, the session waits. In both cases the bytes are those from the start of the file on.
file_get_loop_send-section :
    (content : ℕ → ℕ) (d : Download) (ns : List ℕ) (ss : List SendfileResult)
    → (d.proc_size + total ns ≡ d.size
        → file_get_loop_send true (map sent ns ++ ss) content d ≡ (
          session_begin,
          record { size = 0; offset = 0; proc_size = 0 },
          section content d.offset (total ns),
        ))
      × (d.proc_size + total ns < d.size
          → file_get_loop_send true (map sent ns ++ again ∷ ss) content d ≡ (
            next_write,
            record d { proc_size = d.proc_size + total ns },
            section content d.offset (total ns),
          ))
unfolding file_get_loop_send finish_send
file_get_loop_send-section content d ns ss = (
  λ whole.
      ap (finish_send d) (
        sendfile_loop-section ns ss content d.offset d.size d.proc_size [] (omega (arith, whole))
        ∙ all_sent ss content (d.offset + total ns) d.size (d.proc_size + total ns)
            (section content d.offset (total ns))
            (end_reached (d.proc_size + total ns) d.size whole))
      ∙ rw (same_size d.size (d.proc_size + total ns) (sym whole), finish_send) refl,
  λ less.
      ap (finish_send d) (
        sendfile_loop-section ns (again ∷ ss) content d.offset d.size d.proc_size []
          (omega (arith, less))
        ∙ again_stops ss content (d.offset + total ns) d.size (d.proc_size + total ns)
            (section content d.offset (total ns)) less)
      ∙ rw (not_all d.size (d.proc_size + total ns) less, finish_send) refl,
)

pub file_get_loop_send-repeats :
    (content : ℕ → ℕ) (size offset : ℕ) (ns ks : List ℕ) (ss ss' : List SendfileResult)
    → (total ns ≡ size
        → file_get_loop_send true
            (map sent ns ++ ss)
            content
            (record { size = size; offset = offset; proc_size = 0 })
          ≡ (
            session_begin,
            record { size = 0; offset = 0; proc_size = 0 },
            section content offset size,
          ))
      × (total ns < size
          → total ns + total ks ≡ size
          → (d : Download) × (file_get_loop_send true
                (map sent ns ++ again ∷ ss)
                content
                (record { size = size; offset = offset; proc_size = 0 })
              ≡ (next_write, d, section content offset (total ns)))
            × (file_get_loop_send true (map sent ks ++ ss') content d ≡ (
              session_begin,
              record { size = 0; offset = 0; proc_size = 0 },
              section content offset (total ks),
            )))
file_get_loop_send-repeats content size offset ns ks ss ss' =
    let start : Download = record { size = size; offset = offset; proc_size = 0 } in
    let first = file_get_loop_send-section content start ns ss in
    (
      λ whole.
          first.0 (omega (arith, whole)) ∙ ap (λ n. after_all (section content offset n)) whole,
      λ less all.
          let d : Download = record { size = size; offset = offset; proc_size = 0 + total ns } in
          (
            d,
            first.1 (omega (arith, less)),
            (file_get_loop_send-section content d ks ss').0 (omega (arith, all)),
          ),
    )

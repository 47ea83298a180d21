-- ===== src/Hashdb/Recovery.antt =====
-- `hashdb_init` of lib_mrt/hashdb.c on whole logs, and what it recovers of the operations that wrote
-- them.
use mathlib.Core.List.{append_assoc}
use tdss.Common.{
  ℕ, zero, suc, ◌+◌, ◌*◌, ◌%◌, ◌/◌, ◌^◌, ◌<◌, ◌≡◌, refl, ◌≢◌, false, Option, some, List, [], ◌∷◌,
  ◌++◌, arith, ltb, length, length-append, take-append, drop-append, Bytes,
}
use tdss.Hashdb.{Hashdb, Env, sec_bytes}
use tdss.Hashdb.Binlog.{at_end, read, read_body, read_record, Skip, replay_loop}
use tdss.Hashdb.Find.{nonempty}
use tdss.Hashdb.Holds.{Represents}
use tdss.Hashdb.Replay.{
  Record, record_bytes, log_of, Fits, AllFit, recover, recover_all, Ready, apply_record-recover,
}
use tdss.Run.{ok}

-- The server passes no callback.
abbrev pub no_skip : Skip
no_skip type key val = false

field_eq : (k : ℕ) → k < 2 ^ 16 → k % 256 + k / 256 % 256 * 256 ≡ k
field_eq k h = omega arith

ltb_append : (xs ys : Bytes) → ltb (length (xs ++ ys)) (length xs) ≡ false
ltb_append xs ys = ground (arith, length-append xs ys)

read_body-append :
    (type : ℕ) (key val rest : Bytes)
    → key ≢ []
    → read_body type (length key) (length val) (key ++ (val ++ rest)) ≡ read type key val rest
unfolding read_body
read_body-append type key val rest k = rw (
  nonempty key k,
  ltb_append key (val ++ rest),
  drop-append key (val ++ rest),
  take-append key (val ++ rest),
  ltb_append val rest,
  drop-append val rest,
  take-append val rest,
)

-- What one call of `hashdb_append_binlog` writes, followed by anything, is what one round of the
-- loop of `hashdb_init` reads, for a key that is not empty and lengths that fit 16 bits.
pub read_record-record_bytes :
    (r : Record) (rest : Bytes)
    → Fits r
    → read_record (record_bytes r ++ rest) ≡ read r.type r.key r.val rest
unfolding read_record sec_bytes
read_record-record_bytes r rest (k, kl, vl) =
    rw (field_eq (length r.key) kl, field_eq (length r.val) vl, append_assoc r.key r.val rest)
      (read_body-append r.type r.key r.val rest k)

read_record-short : (torn : Bytes) → length torn < 6 → read_record torn ≡ at_end
unfolding read_record
read_record-short [] h = refl
read_record-short (a ∷ []) h = refl
read_record-short (a ∷ b ∷ []) h = refl
read_record-short (a ∷ b ∷ c ∷ []) h = refl
read_record-short (a ∷ b ∷ c ∷ d ∷ []) h = refl
read_record-short (a ∷ b ∷ c ∷ d ∷ e ∷ []) h = refl
read_record-short (a ∷ b ∷ c ∷ d ∷ e ∷ g ∷ rest) h = absurd (omega arith)

-- The loop ends, without a fault, with the map that the records say; a last record that was cut
-- off within its header does no harm.
pub replay_loop-recover_all :
    (fuel : ℕ) (envs : ℕ → Env) (n : ℕ) (m : Hashdb) (f : Bytes → Option Bytes) (rs : List Record)
    (torn : Bytes)
    → Ready envs n f m
    → AllFit rs
    → length torn < 6
    → length rs < fuel
    → (m' : Hashdb) × (replay_loop fuel no_skip envs n m (log_of rs ++ torn) ≡ ok (some m'))
      × Represents m' (recover_all f rs)
unfolding replay_loop
replay_loop-recover_all zero envs n m f rs torn ready fits short h = absurd (omega arith)
replay_loop-recover_all (suc fuel) envs n m f [] torn ready fits short h =
    rw (read_record-short torn short, replay_loop) (m, refl, ready.0)
replay_loop-recover_all (suc fuel) envs n m f (r ∷ rs) torn ready fits short h =
    let (m', run, ready') = apply_record-recover envs n m f ready r.type r.key r.val fits.0.0 in
    let (m'', rest, represents) =
      replay_loop-recover_all fuel envs (suc n) m' (recover f r) rs torn ready' fits.1 short
        (omega arith) in
    rw (append_assoc (record_bytes r) (log_of rs) torn) (
      rw (read_record-record_bytes r (log_of rs ++ torn) fits.0, replay_loop)
        (rw run (m'', rest, represents)))

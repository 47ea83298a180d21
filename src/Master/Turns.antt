-- ===== src/Master/Turns.antt =====
-- master_server/server_check.c: whose turn it is to be asked for its state, and what a failed
-- question changes.
use native.Mathlib.Numerals.{add-one}
use native.Mathlib.Nat.{mod-eq_of_lt, mod_self}
use tdss.Common.{
  ℕ, zero, suc, ◌+◌, ◌%◌, ◌<◌, ◌≡◌, refl, ◌∙◌, ap, ◌≢◌, Bool, true, false, ◌&&◌, Option, none, some,
  List, [], ◌∷◌, arith, ◌==◌, if◌then◌else◌, length, get_or, set, get_or-set_self, get_or-set_ne,
}
use tdss.Run.{Run, ok, fault, ◌>>=◌}

-- One of the two parts of `master_server_conf_t`: the server whose turn it is, how many there are,
-- when the current round began, and the states.
pub record Servers : Type 0 where
  pub id : ℕ
  pub count : ℕ
  pub start : ℕ
  pub states : List ℕ

-- `__data_server_next` and `__name_server_next`, at the time `now`. No server is MRT_ERR; with no
-- server at all the remainder faults.
unfoldable pub server_next : Servers → ℕ → Run (Option ℕ × Servers)
server_next ss now =
    if ss.count == 0
    then fault
    else let next_id = (ss.id + 1) % ss.count in
      ok (
        if (next_id == 0) && (ss.start == now) then (none, ss) else (
          some next_id,
          record ss { id = next_id; start = if next_id == 0 then now else ss.start },
        ))

-- The answers to several calls at one time.
unfoldable pub calls : ℕ → Servers → ℕ → Run (List (Option ℕ))
calls zero ss now = ok []
calls (suc n) ss now = server_next ss now >>= λ r. calls n r.1 now >>= λ rest. ok (r.0 ∷ rest)

-- The servers from `i` on, `n` of them, and then none.
abbrev pub up_from : ℕ → ℕ → List (Option ℕ)
up_from zero i = none ∷ []
up_from (suc n) i = some i ∷ up_from n (suc i)

next_inside :
    (ss : Servers) (now : ℕ)
    → ss.id + 1 < ss.count
    → server_next ss now ≡ ok (some (ss.id + 1), record ss { id = ss.id + 1 })
unfolding server_next
next_inside ss now h =
    let some_server : (ss.count == 0) ≡ false = ground (arith, h) in
    let not_first : (ss.id + 1 == 0) ≡ false = ground arith in
    rw (some_server, mod-eq_of_lt h) (rw not_first refl)

next_round :
    (ss : Servers) (now : ℕ)
    → ss.id + 1 ≡ ss.count
    → server_next ss now
      ≡ ok (if ss.start == now then (none, ss) else (some 0, record ss { id = 0; start = now }))
unfolding server_next
next_round ss now h =
    let some_server : (ss.count == 0) ≡ false = ground (arith, h) in
    let first : (ss.id + 1) % ss.count ≡ 0 = ap (λ (n : ℕ). n % ss.count) h ∙ mod_self ss.count in
    rw (some_server, first) refl

calls_rest :
    (n : ℕ) (ss : Servers) (now : ℕ)
    → ss.id + 1 + n ≡ ss.count
    → ss.start ≡ now
    → calls (suc n) ss now ≡ ok (up_from n (ss.id + 1))
unfolding calls
calls_rest zero ss now h begun =
    let again : (ss.start == now) ≡ true = ground (arith, begun) in
    rw (next_round ss now (omega (arith, h)), calls) (rw again refl)
calls_rest (suc n) ss now h begun =
    rw (next_inside ss now (omega (arith, h)), calls)
      (rw (calls_rest n (record ss { id = ss.id + 1 }) now (omega (arith, h)) begun)
        (rw (add-one (ss.id + 1)) refl))

-- When the last server had its turn and the round before began in another second, the calls of one
-- second ask each server once, in order, and then none: the loop waits for the timer.
pub calls-round :
    (n : ℕ) (ss : Servers) (now : ℕ)
    → ss.count ≡ suc n
    → ss.id + 1 ≡ ss.count
    → ss.start ≢ now
    → calls (suc (suc n)) ss now ≡ ok (some 0 ∷ up_from n 1)
unfolding calls
calls-round n ss now count last other =
    let fresh : (ss.start == now) ≡ false = ground (arith, other) in
    rw (next_round ss now last, calls)
      (rw fresh (
        rw (calls_rest n (record ss { id = 0; start = now }) now (omega (arith, count)) refl) refl))

-- Both parts of `master_server_conf_t`, and the two kinds of server.
pub record Conf : Type 0 where
  pub data_server : Servers
  pub name_server : Servers

pub data ServerType : Type 0 where
  type_data type_name : ServerType

abbrev pub mark : Servers → ℕ → ℕ → Servers
mark ss i state = record ss { states = set ss.states i state }

-- `child_fail_return` of `__server_finish`. Both branches take the number from the data servers.
unfoldable pub child_fail : Conf → ServerType → Conf
child_fail ms type_data = record ms { data_server = mark ms.data_server ms.data_server.id 1 }
child_fail ms type_name = record ms { name_server = mark ms.name_server ms.data_server.id 1 }

-- `__data_server_report` and `__name_server_report`, by whether the answer can be read.
unfoldable pub server_report : Conf → ServerType → Bool → Conf
server_report ms type_data readable = record ms {
  data_server = mark ms.data_server ms.data_server.id (if readable then 2 else 1);
}
server_report ms type_name readable = record ms {
  name_server = mark ms.name_server ms.name_server.id (if readable then 2 else 1);
}

-- The state of the server that was asked.
abbrev pub asked : Conf → ServerType → ℕ
asked ms type_data = get_or ms.data_server.states ms.data_server.id 0
asked ms type_name = get_or ms.name_server.states ms.name_server.id 0

-- With the servers asked in the lists: an answer marks the server that was asked, online if it can
-- be read and offline if not. A failed question marks a data server offline, but leaves the mark of
-- a name server as it was whenever its number is not that of the data server whose turn it is.
server_report-marks :
    (ms : Conf) (type : ServerType)
    → ms.data_server.id < length ms.data_server.states
    → ms.name_server.id < length ms.name_server.states
    → (asked (server_report ms type true) type ≡ 2)
      × (asked (server_report ms type false) type ≡ 1)
      × (asked (child_fail ms type_data) type_data ≡ 1)
      × (ms.data_server.id ≢ ms.name_server.id
          → asked (child_fail ms type_name) type_name ≡ asked ms type_name)
unfolding server_report child_fail
server_report-marks ms type_data data_in name_in = (
  get_or-set_self ms.data_server.states ms.data_server.id 2 0 data_in,
  get_or-set_self ms.data_server.states ms.data_server.id 1 0 data_in,
  get_or-set_self ms.data_server.states ms.data_server.id 1 0 data_in,
  λ other. get_or-set_ne ms.name_server.states ms.data_server.id ms.name_server.id 1 0 other,
)
server_report-marks ms type_name data_in name_in = (
  get_or-set_self ms.name_server.states ms.name_server.id 2 0 name_in,
  get_or-set_self ms.name_server.states ms.name_server.id 1 0 name_in,
  get_or-set_self ms.data_server.states ms.data_server.id 1 0 data_in,
  λ other. get_or-set_ne ms.name_server.states ms.data_server.id ms.name_server.id 1 0 other,
)

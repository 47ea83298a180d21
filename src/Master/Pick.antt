-- ===== src/Master/Pick.antt =====
-- Which data server the loop of `server_find` in master_server/command.c picks.
use native.Mathlib.Nat.{mod-eq_of_lt, mod-add-mod, add-mod_left, mod-lt}
use tdss.Common.{
  ℕ, zero, suc, ◌+◌, ◌-◌, ◌%◌, ◌<◌, ◌≡◌, refl, sym, ◌∙◌, ap, inl, inr, Bool, true, false, Option,
  none, some, List, arith, ltb, Bool-cases, length, get_or,
}
use tdss.Master.{DataServerInfo, no_server, skips, find_loop}

-- The server that is `k` turns behind `w`.
abbrev pub turn : List DataServerInfo → ℕ → ℕ → ℕ
turn info w k = (w + k) % length info

abbrev pub skipped : List DataServerInfo → ℕ → ℕ → Bool
skipped info nsize i = skips nsize (get_or info i no_server)

-- The first server within `rounds` turns that is not to be passed over, or none.
abbrev pub First : List DataServerInfo → ℕ → ℕ → ℕ → Option ℕ × ℕ → Type 0
First info nsize w rounds (none, id) =
    (id ≡ turn info w rounds)
    × ((k : ℕ) → k < rounds → skipped info nsize (turn info w (suc k)) ≡ true)
First info nsize w rounds (some i, id) =
    (id ≡ i)
    × (k : ℕ) × (k < rounds)
    × (i ≡ turn info w (suc k))
    × (skipped info nsize i ≡ false)
    × ((j : ℕ) → j < k → skipped info nsize (turn info w (suc j)) ≡ true)

turn-suc :
    (info : List DataServerInfo) (w k : ℕ)
    → turn info ((w + 1) % length info) k ≡ turn info w (suc k)
turn-suc info w k =
    mod-add-mod (w + 1) (length info) k ∙ ap (λ (n : ℕ). n % length info) (omega arith)

all_suc :
    (info : List DataServerInfo) (nsize w rounds : ℕ)
    → skipped info nsize ((w + 1) % length info) ≡ true
    → ((k : ℕ) → k < rounds → skipped info nsize (turn info ((w + 1) % length info) (suc k)) ≡ true)
    → (k : ℕ) → k < suc rounds
    → skipped info nsize (turn info w (suc k)) ≡ true
all_suc info nsize w rounds first all zero h = first
all_suc info nsize w rounds first all (suc k) h =
    ap (skipped info nsize) (sym (turn-suc info w (suc k))) ∙ all k (omega arith)

First-suc :
    (info : List DataServerInfo) (nsize w rounds : ℕ) (r : Option ℕ × ℕ)
    → skipped info nsize ((w + 1) % length info) ≡ true
    → First info nsize ((w + 1) % length info) rounds r
    → First info nsize w (suc rounds) r
First-suc info nsize w rounds (none, id) first (same, all) =
    (same ∙ turn-suc info w rounds, all_suc info nsize w rounds first all)
First-suc info nsize w rounds (some i, id) first (same, k, lt, at, free, before) = (
  same,
  suc k,
  omega arith,
  at ∙ turn-suc info w (suc k),
  free,
  all_suc info nsize w k first before,
)

find_loop-First_within :
    (rounds : ℕ) (info : List DataServerInfo) (nsize w : ℕ)
    → w < length info
    → First info nsize w rounds (find_loop rounds info nsize w)
unfolding find_loop
find_loop-First_within zero info nsize w lt = (
  sym (ap (λ (n : ℕ). n % length info) (omega arith) ∙ mod-eq_of_lt lt),
  λ k h. absurd (omega arith),
)
find_loop-First_within (suc rounds) info nsize w lt =
    elim (Bool-cases (skipped info nsize ((w + 1) % length info))) [
      | inl e ↦
          rw (e, find_loop)
            (First-suc info nsize w rounds _ e (
              find_loop-First_within rounds info nsize ((w + 1) % length info)
                (mod-lt (w + 1) (omega arith))))
      | inr e ↦ rw (e, find_loop) (refl, 0, omega arith, refl, e, λ j h. absurd (omega arith))
    ]

-- Each server is met within one round of turns.
turn-meets :
    (info : List DataServerInfo) (w i : ℕ)
    → w < length info
    → i < length info
    → (k : ℕ) × (k < length info) × (i ≡ turn info w (suc k))
turn-meets info w i lt inside = elim (Bool-cases (ltb w i)) [
  | inl e ↦ (
    i - w - 1,
    omega arith,
    sym (ap (λ (n : ℕ). n % length info) (later w i e) ∙ mod-eq_of_lt inside),
  )
  | inr e ↦ (
    length info - w - 1 + i,
    earlier w i (length info) e lt,
    sym (
        ap (λ (n : ℕ). n % length info) (around w i (length info) lt)
        ∙ add-mod_left (length info) i
        ∙ mod-eq_of_lt inside),
  )
]
  where
    later : (w i : ℕ) → ltb w i ≡ true → w + suc (i - w - 1) ≡ i
    later w i e = ground arith

    earlier : (w i n : ℕ) → ltb w i ≡ false → w < n → n - w - 1 + i < n
    earlier w i n e lt = ground arith

    around : (w i n : ℕ) → w < n → w + suc (n - w - 1 + i) ≡ n + i
    around w i n lt = omega arith

-- From a `work_id` that is the number of a server, the loop picks the first server behind it, in
-- turns around the list, that is not offline and has the space, and leaves `work_id` there. If it
-- picks none, then every server is offline or full, and `work_id` is as before.
pub find_loop-First :
    (info : List DataServerInfo) (nsize w : ℕ)
    → w < length info
    → First info nsize w (length info) (find_loop (length info) info nsize w)
      × ((find_loop (length info) info nsize w).0 ≡ none
          → ((i : ℕ) → i < length info → skipped info nsize i ≡ true)
            × ((find_loop (length info) info nsize w).1 ≡ w))
find_loop-First info nsize w lt =
    let out = find_loop-First_within (length info) info nsize w lt in
    (out, λ e. exhausted (find_loop (length info) info nsize w) out e)
  where
    exhausted :
        (r : Option ℕ × ℕ)
        → First info nsize w (length info) r
        → r.0 ≡ none
        → ((i : ℕ) → i < length info → skipped info nsize i ≡ true) × (r.1 ≡ w)
    exhausted (none, id) (same, all) e = (
      λ i inside.
          let (k, h, at) = turn-meets info w i lt inside in ap (skipped info nsize) at ∙ all k h,
      same
          ∙ ap (λ (n : ℕ). n % length info) (omega arith)
          ∙ add-mod_left (length info) w
          ∙ mod-eq_of_lt lt,
    )
    exhausted (some i, id) out e = cc

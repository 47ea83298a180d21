-- ===== src/DataServer/Blocks/Places.antt =====
-- The places that `block_file_append` of data_server/data_file.c gives out, and when
-- `block_file_close` closes a block.
use mathlib.Core.Path.{ap₂}
use tdss.Common.{
  ℕ, zero, suc, ◌+◌, ◌-◌, ◌%◌, ◌^◌, ◌<◌, ◌≡◌, refl, ◌∙◌, ap, true, false, ◌&&◌, Option, none, some,
  List, [], ◌∷◌, ◌++◌, arith, leb, ◌==◌, if◌then◌else◌, length, length-append, length-set, get_or,
  get_or-set_self,
}
use tdss.DataServer.Blocks.{
  Block, Store, Disk, no_block, Place, block_file_create, append_new, append_current,
  block_file_append, block_file_close, append_all, close_times,
}

-- Places one behind the other, from `start` on.
abbrev pub consecutive : ℕ → ℕ → List ℕ → List (Option Place)
consecutive i start [] = []
consecutive i start (size ∷ sizes) =
    some (record { block = i; pos = some start }) ∷ consecutive i (start + size) sizes

abbrev pub total : List ℕ → ℕ
total [] = 0
total (n ∷ ns) = n + total ns

fits : (max n : ℕ) → n < max → leb max n ≡ false
fits max n h = ground arith

pub append_one :
    (max : ℕ) (st : Store) (i size : ℕ) (disk : Disk)
    → st.cbf ≡ some i
    → (get_or st.blocks i no_block).size + size < max
    → block_file_append max st size disk ≡ append_current st i size disk
unfolding block_file_append
append_one max st i size disk here room = rw here (rw (fits max _ room))

append_current-next :
    (st : Store) (i size : ℕ) (disk : Disk)
    → i < length st.blocks
    → disk.truncate_ok ≡ true
    → ((append_current st i size disk).0
        ≡ some (record { block = i; pos = some (get_or st.blocks i no_block).size }))
      × ((get_or (append_current st i size disk).1.blocks i no_block).size
          ≡ (get_or st.blocks i no_block).size + size)
      × ((append_current st i size disk).1.cbf ≡ st.cbf)
      × (length (append_current st i size disk).1.blocks ≡ length st.blocks)
unfolding append_current
append_current-next st i size disk there works = simp works (
  refl,
  ap (λ (b : Block). b.size) (get_or-set_self st.blocks i _ no_block there),
  refl,
  length-set st.blocks i _,
)

-- While the current block has room and extending a file on the disk succeeds, the files of one
-- session after another lie behind each other in it: each begins where the one before ends, from
-- the block's size on. The block grows by their sizes and stays the current one.
append_all-consecutive :
    (max : ℕ) (st : Store) (i : ℕ) (sizes : List ℕ) (disk : Disk)
    → st.cbf ≡ some i
    → i < length st.blocks
    → disk.truncate_ok ≡ true
    → (get_or st.blocks i no_block).size + total sizes < max
    → ((append_all max st sizes disk).0 ≡ consecutive i (get_or st.blocks i no_block).size sizes)
      × ((get_or (append_all max st sizes disk).1.blocks i no_block).size
          ≡ (get_or st.blocks i no_block).size + total sizes)
      × ((append_all max st sizes disk).1.cbf ≡ some i)
unfolding append_current
append_all-consecutive max st i [] disk here there works room = (refl, omega arith, here)
append_all-consecutive max st i (size ∷ sizes) disk here there works room =
    let (place, grown, same, count) = append_current-next st i size disk there works in
    let st' = (append_current st i size disk).1 in
    let (places, size', here') =
      append_all-consecutive max st' i sizes disk (same ∙ here) (omega (arith, count, there)) works
        (omega (arith, room, grown)) in
    rw (append_one max st i size disk here (omega arith), append_all)
      (
        ap₂ ◌∷◌ place (places ∙ ap (λ (n : ℕ). consecutive i n sizes) grown),
        omega (arith, size', grown),
        here',
      )

close_one :
    (st : Store) (i : ℕ)
    → i < length st.blocks
    → get_or (block_file_close st i).blocks i no_block ≡ (
        if ((get_or st.blocks i no_block).num == 0) && ((get_or st.blocks i no_block).state == 2)
        then record (get_or st.blocks i no_block) { is_open = false }
        else record (get_or st.blocks i no_block) {
          num = ((get_or st.blocks i no_block).num + 2 ^ 32 - 1) % 2 ^ 32;
        })
unfolding block_file_close
close_one st i there = get_or-set_self st.blocks i _ no_block there

close_used :
    (st : Store) (i n : ℕ)
    → i < length st.blocks
    → (get_or st.blocks i no_block).num ≡ suc n
    → get_or (block_file_close st i).blocks i no_block ≡ record (get_or st.blocks i no_block) {
      num = ((get_or st.blocks i no_block).num + 2 ^ 32 - 1) % 2 ^ 32;
    }
close_used st i n there num =
    let used : ((get_or st.blocks i no_block).num == 0) ≡ false = ground (arith, num) in
    close_one st i there ∙ rw used refl

count : (st : Store) (i : ℕ) → length (block_file_close st i).blocks ≡ length st.blocks
unfolding block_file_close
count st i = length-set st.blocks i _

-- A block in use by `n` sessions, fewer than 2 ^ 32, that is marked as full and open is not closed
-- by `n` calls of `block_file_close`, and is closed by one more.
close_times-is_open :
    (st : Store) (i n : ℕ)
    → i < length st.blocks
    → n < 2 ^ 32
    → (get_or st.blocks i no_block).num ≡ n
    → (get_or st.blocks i no_block).state ≡ 2
    → (get_or st.blocks i no_block).is_open ≡ true
    → ((get_or (close_times n st i).blocks i no_block).is_open ≡ true)
      × ((get_or (close_times (suc n) st i).blocks i no_block).is_open ≡ false)
close_times-is_open st i zero there small num full up =
    (up, rw (close_one st i there, num, full) refl)
close_times-is_open st i (suc n) there small num full up =
    let one = close_used st i n there num in
    let low : (suc n + 2 ^ 32 - 1) % 2 ^ 32 ≡ n = omega (arith, small) in
    close_times-is_open (block_file_close st i) i n (omega (arith, there, count st i)) (omega arith)
      (rw (one, num) low) (rw one full) (rw one up)

get_or-snoc : (bs : List Block) (b : Block) → get_or (bs ++ b ∷ []) (length bs) no_block ≡ b
get_or-snoc [] b = refl
get_or-snoc (c ∷ bs) b = get_or-snoc bs b

abbrev new_block : ℕ → Block
new_block size = record { state = 1; num = 1; size = 0; file_length = size; is_open = true }

abbrev with_new : Store → ℕ → Store
with_new st size = record {
  blocks = st.blocks ++ new_block size ∷ [];
  cbf = some (length st.blocks);
}

made :
    (st : Store) (size : ℕ) (disk : Disk)
    → disk.create_ok ≡ true
    → disk.truncate_ok ≡ true
    → block_file_create st size disk ≡ some (with_new st size)
unfolding block_file_create
made st size disk make extend = simp (make, extend)

append_first :
    (max : ℕ) (st : Store) (size : ℕ) (disk : Disk)
    → st.cbf ≡ none
    → disk.create_ok ≡ true
    → disk.truncate_ok ≡ true
    → block_file_append max st size disk
      ≡ (some (record { block = length st.blocks; pos = none }), with_new st size)
unfolding block_file_append append_new
append_first max st size disk no_current make extend =
    rw (no_current, block_file_append) (rw (made st size disk make extend, append_new) refl)

append_current-length :
    (st : Store) (i size : ℕ) (disk : Disk)
    → i < length st.blocks
    → disk.truncate_ok ≡ true
    → (get_or (append_current st i size disk).1.blocks i no_block).file_length
      ≡ (get_or st.blocks i no_block).size + size
unfolding append_current
append_current-length st i size disk there works =
    simp works (ap (λ (b : Block). b.file_length) (get_or-set_self st.blocks i _ no_block there))

-- With no current block, files that can be made and extended, and a second file below the limit:
-- the first file gets a new block and no position, and the second one gets position 0 of the same
-- block, whatever the size of the first; on the disk the block is cut to the size of the second.
pub block_file_append-overlap :
    (max : ℕ) (st : Store) (first second : ℕ) (disk : Disk)
    → st.cbf ≡ none
    → disk.create_ok ≡ true
    → disk.truncate_ok ≡ true
    → second < max
    → ((append_all max st (first ∷ second ∷ []) disk).0
        ≡ some (record { block = length st.blocks; pos = none })
          ∷ some (record { block = length st.blocks; pos = some 0 })
          ∷ [])
      × ((get_or
            (append_all max st (first ∷ second ∷ []) disk).1.blocks
            (length st.blocks)
            no_block).file_length
          ≡ second)
block_file_append-overlap max st first second disk no_current make extend room =
    let st' = with_new st first in
    let b = get_or-snoc st.blocks (new_block first) in
    let there : length st.blocks < length st'.blocks =
      omega (arith, length-append st.blocks (new_block first ∷ [])) in
    let again : block_file_append max st' second disk
        ≡ append_current st' (length st.blocks) second disk =
      append_one max st' (length st.blocks) second disk refl (rw b (omega (arith, room))) in
    let (place, _, _, _) = append_current-next st' (length st.blocks) second disk there extend in
    rw (append_first max st first disk no_current make extend, append_all)
      (rw (again, append_all)
        (
          ap (λ (p : Option Place). some (record { block = length st.blocks; pos = none }) ∷ p ∷ [])
              (place ∙ rw b refl),
          append_current-length st' (length st.blocks) second disk there extend
              ∙ rw b (omega arith),
        ))

-- ===== src/Tests/DataServer.antt =====
-- Runs and instances for data_server/command.c and data_file.c.
use tdss.Common.{List, ℕ, ◌≡◌, refl, true, none, some, [], ◌∷◌, arith, get_or}
use tdss.DataServer.Blocks.{Block, Store, Place, no_block, append_all, close_times}
use tdss.DataServer.Blocks.Places.{block_file_append-overlap}
use tdss.DataServer.Download
use tdss.DataServer.Download.{Download}
use tdss.DataServer.Upload.{BlockFile, Session, Disk, closed, file_add_loop_recv}
use tdss.DataServer.Upload.Whole.{file_add_loop_recv-closed}
use tdss.Run.{hang}

abbrev blank_file : BlockFile
blank_file = record { content = λ _. 0; pos = 0 }

abbrev disk : Disk
disk = record { seek_ok = true; write_ok = λ _. true }

abbrev three_bytes : Session
three_bytes = record { size = 3; offset = 10; proc_size = 0; bf_buf = [] }

file_add_loop_recv-closed_example :
    file_add_loop_recv 1000 2 disk (λ _. closed) 0 blank_file three_bytes ≡ hang
file_add_loop_recv-closed_example =
    file_add_loop_recv-closed 1000 2 disk (λ _. closed) 0 blank_file three_bytes (λ _ _. refl)
      (omega arith) refl

abbrev block_disk : tdss.DataServer.Blocks.Disk
block_disk = record { create_ok = true; truncate_ok = true }

-- One block of ten bytes, handed to two sessions.
abbrev ten : Store
ten = record {
  blocks = record { state = 1; num = 2; size = 10; file_length = 10; is_open = true } ∷ [];
  cbf = some 0;
}

abbrev none_yet : Store
none_yet = record { blocks = []; cbf = none }

block_file_append-overlap_example :
    ((append_all 100 none_yet (5 ∷ 6 ∷ []) block_disk).0
      ≡ some (record { block = 0; pos = none }) ∷ some (record { block = 0; pos = some 0 }) ∷ [])
    × ((get_or (append_all 100 none_yet (5 ∷ 6 ∷ []) block_disk).1.blocks 0 no_block).file_length
        ≡ 6)
block_file_append-overlap_example =
    block_file_append-overlap 100 none_yet 5 6 block_disk refl refl refl (omega arith)

abbrev four_three : List ℕ
four_three = 4 ∷ 3 ∷ []

-- ===== src/Tests/Master.antt =====
-- Instances for the master server.
use tdss.Common.{ℕ, ◌<◌, ◌≡◌, refl, true, none, some, List, [], ◌∷◌, arith}
use tdss.Master.{DataServerInfo, find_loop}
use tdss.Master.Pick.{First, skipped, find_loop-First}
use tdss.Master.Turns.{Servers, calls, up_from, calls-round, Conf}
use tdss.Run.{ok}

-- The first server is offline, and the third is full.
abbrev pub three : List DataServerInfo
three =
    record { state = 1; disk_free = 9000; inode_free = 9000 }
    ∷ record { state = 2; disk_free = 9000; inode_free = 9000 }
    ∷ record { state = 2; disk_free = 10; inode_free = 9000 }
    ∷ []

find_loop-First_example :
    First three 1024 1 3 (find_loop 3 three 1024 1)
    × ((find_loop 3 three 1024 1).0 ≡ none
        → ((i : ℕ) → i < 3 → skipped three 1024 i ≡ true) × ((find_loop 3 three 1024 1).1 ≡ 1))
find_loop-First_example = find_loop-First three 1024 1 (omega arith)

abbrev last_of_three : Servers
last_of_three = record { id = 2; count = 3; start = 7; states = 2 ∷ 2 ∷ 2 ∷ [] }

calls-round_example : calls 4 last_of_three 8 ≡ ok (some 0 ∷ up_from 2 1)
calls-round_example = calls-round 2 last_of_three 8 refl refl (λ (e : 7 ≡ 8). omega arith)

abbrev both : Conf
both = record {
  data_server = last_of_three;
  name_server = record { id = 0; count = 1; start = 7; states = 2 ∷ [] };
}

-- ===== src/Server/Tests.antt =====
-- A server with one client and one request, and the theorems there.
use netdisk.Prelude.{refl, true, [], ◌∷◌}
use netdisk.TaskQueue.{no_request}
use netdisk.TaskQueue.Seg.{Cell}
use netdisk.TaskQueue.Refine.{serve}
use netdisk.Server.{Server, started, on_listen, on_request, after_request}
use netdisk.Server.Steps.{Reach, here, next, connect, request, take, finish}

-- `ls` over the descriptor 9
abbrev ls : Cell
ls = record { addr = 2; netfd = 9; train = record no_request { command_no = 1 } }

abbrev connected : Server
connected = on_listen 9 started

abbrev asked : Server
asked = on_request ls connected

connected-Reach : Reach started connected
connected-Reach = next here (connect 9 refl refl)

asked-Reach : Reach started asked
asked-Reach = next connected-Reach (request ls refl refl refl)

-- the short thread takes the request and answers it
answered : Reach started (after_request ls [] (record asked { waiting = []; busy = ls ∷ [] }))
unfolding serve
answered = next (next asked-Reach (take true ls [] refl tt refl)) (finish [] ls [] refl)

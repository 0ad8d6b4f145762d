-- ===== src/Tests/Handlers.antt =====
-- The teacher starts the cartoon.
use mathlib.Core.List.{Perm}
use ec_server.Base.{◌≡◌, refl, [], ◌∷◌, some, find}
use ec_server.Server.{Server}
use ec_server.Messages.{post_teacher_to_white}
use ec_server.Messages.Relay.{buffers}
use ec_server.Handlers.Relays.{handle_cartoon_game_start}
use ec_server.Handlers.Table.{m_handle_map, dispatch}
use ec_server.Handlers.Types.{ct_cartoon_game_start}
use ec_server.Handlers.Dispatch.{dispatch-passes_on}
use ec_server.Tests.Room.{rooms, students}

abbrev server : Server
server = record {
  bufs = λ p. record { c_len = 8; c_type = ct_cartoon_game_start; c_data = []; used = 8; fd = 3 };
  bufpool = record { m_queue = 51 ∷ []; m_size = 2 };
  sendqueue = [];
  students = students;
  rooms = rooms;
}

cartoon_handler : find ct_cartoon_game_start m_handle_map ≡ some handle_cartoon_game_start
unfolding find m_handle_map
cartoon_handler = refl

dispatch-passes_on_example :
    (dispatch 50 server ≡ some (post_teacher_to_white (some 50) 501 server).1)
    × ((r : Server) × (dispatch 50 server ≡ some r) × Perm (buffers r) (50 ∷ buffers server))
dispatch-passes_on_example = dispatch-passes_on 50 server handle_cartoon_game_start cartoon_handler

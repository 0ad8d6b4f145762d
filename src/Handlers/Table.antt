-- ===== src/Handlers/Table.antt =====
-- How RecvTask.cpp finds the handler of a message in the part of the table, handler/MSGHANDLE, that is
-- for the modelled handlers.
use ec_server.Base.{ℕ, [], ◌∷◌, Option, none, some, Map, find}
use ec_server.Server.{Server}
use ec_server.Handlers.Types.{
  ct_common_playor_pause, ct_common_resume, ct_common_stop, ct_show_sprite_animation,
  ct_show_sprite_control, ct_control_level, ct_exercise_game_start, ct_exercise_play,
  ct_exercise_pause, ct_exercise_stop, ct_exercise_game_end, ct_cartoon_game_start, ct_cartoon_play,
  ct_cartoon_pause, ct_cartoon_stop, ct_cartoon_game_end, ct_build_house_cai_hong_xiao_wu,
  ct_build_house_cai_hong_gu, ct_build_house_xiao_guai_wu, ct_build_house_mu_bu,
  ct_build_house_single_mode, ct_build_house_group_mode, ct_build_house_email_tibet,
  ct_build_house_email_america, ct_build_house_activation, ct_build_house_role,
  ct_build_house_screen_shot, ct_puzzle_icon_status, ct_puzzle_play, ct_puzzle_pause,
  ct_puzzle_selected_type, ct_puzzle_selected_size,
}
use ec_server.Handlers.Relays.{
  handle_common_playor_pause, handle_common_resume, handle_common_stop,
  handle_show_sprite_animation, handle_show_sprite_control, handle_control_level,
  handle_exercise_game_start, handle_exercise_play, handle_exercise_pause, handle_exercise_stop,
  handle_exercise_game_end, handle_cartoon_game_start, handle_cartoon_play, handle_cartoon_pause,
  handle_cartoon_stop, handle_cartoon_game_end, handle_build_house_cai_hong_xiao_wu,
  handle_build_house_cai_hong_gu, handle_build_house_xiao_guai_wu, handle_build_house_mu_bu,
  handle_build_house_single_mode, handle_build_house_group_mode, handle_build_house_email_tibet,
  handle_build_house_email_america, handle_build_house_activation, handle_build_house_role,
  handle_build_house_screen_shot, handle_puzzle_icon_status, handle_puzzle_play,
  handle_puzzle_pause, handle_puzzle_selected_type, handle_puzzle_selected_size,
}

-- The entries of m_HandleMap for these handlers.
unfoldable pub m_handle_map : Map (Option ℕ → Server → Server)
unfolding handle_common_playor_pause handle_common_resume handle_common_stop
    handle_show_sprite_animation handle_show_sprite_control handle_control_level
    handle_exercise_game_start handle_exercise_play handle_exercise_pause handle_exercise_stop
    handle_exercise_game_end handle_cartoon_game_start handle_cartoon_play handle_cartoon_pause
    handle_cartoon_stop handle_cartoon_game_end handle_build_house_cai_hong_xiao_wu
    handle_build_house_cai_hong_gu handle_build_house_xiao_guai_wu handle_build_house_mu_bu
    handle_build_house_single_mode handle_build_house_group_mode handle_build_house_email_tibet
    handle_build_house_email_america handle_build_house_activation handle_build_house_role
    handle_build_house_screen_shot handle_puzzle_icon_status handle_puzzle_play handle_puzzle_pause
    handle_puzzle_selected_type handle_puzzle_selected_size
m_handle_map =
    (ct_common_playor_pause, handle_common_playor_pause)
    ∷ (ct_common_resume, handle_common_resume)
    ∷ (ct_common_stop, handle_common_stop)
    ∷ (ct_show_sprite_animation, handle_show_sprite_animation)
    ∷ (ct_show_sprite_control, handle_show_sprite_control)
    ∷ (ct_control_level, handle_control_level)
    ∷ (ct_exercise_game_start, handle_exercise_game_start)
    ∷ (ct_exercise_play, handle_exercise_play)
    ∷ (ct_exercise_pause, handle_exercise_pause)
    ∷ (ct_exercise_stop, handle_exercise_stop)
    ∷ (ct_exercise_game_end, handle_exercise_game_end)
    ∷ (ct_cartoon_game_start, handle_cartoon_game_start)
    ∷ (ct_cartoon_play, handle_cartoon_play)
    ∷ (ct_cartoon_pause, handle_cartoon_pause)
    ∷ (ct_cartoon_stop, handle_cartoon_stop)
    ∷ (ct_cartoon_game_end, handle_cartoon_game_end)
    ∷ (ct_build_house_cai_hong_xiao_wu, handle_build_house_cai_hong_xiao_wu)
    ∷ (ct_build_house_cai_hong_gu, handle_build_house_cai_hong_gu)
    ∷ (ct_build_house_xiao_guai_wu, handle_build_house_xiao_guai_wu)
    ∷ (ct_build_house_mu_bu, handle_build_house_mu_bu)
    ∷ (ct_build_house_single_mode, handle_build_house_single_mode)
    ∷ (ct_build_house_group_mode, handle_build_house_group_mode)
    ∷ (ct_build_house_email_tibet, handle_build_house_email_tibet)
    ∷ (ct_build_house_email_america, handle_build_house_email_america)
    ∷ (ct_build_house_activation, handle_build_house_activation)
    ∷ (ct_build_house_role, handle_build_house_role)
    ∷ (ct_build_house_screen_shot, handle_build_house_screen_shot)
    ∷ (ct_puzzle_icon_status, handle_puzzle_icon_status)
    ∷ (ct_puzzle_play, handle_puzzle_play)
    ∷ (ct_puzzle_pause, handle_puzzle_pause)
    ∷ (ct_puzzle_selected_type, handle_puzzle_selected_type)
    ∷ (ct_puzzle_selected_size, handle_puzzle_selected_size)
    ∷ []

-- One round of RecvTask::work with a buffer from the receive queue, `none` if no handler of the table is
-- for the message.
unfoldable pub dispatch : ℕ → Server → Option Server
unfolding find m_handle_map
dispatch p s = elim (find (s.bufs p).c_type m_handle_map) [
  | none ↦ none
  | some handle ↦ some (handle (some p) s)
]

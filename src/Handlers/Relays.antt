-- ===== src/Handlers/Relays.antt =====
-- The handlers that pass a message of the teacher on to the whiteboard: handler/HandleCartoon.cpp,
-- HandleExercise.cpp, HandleBuildHouse.cpp, HandleClassRoom.cpp, HandlePuzzle.cpp and HandleSprite.cpp.
use ec_server.Base.{ℕ, Option, none, some, ◌==◌, if◌then◌else◌, ◌>>=◌}
use ec_server.Server.{Server}
use ec_server.Messages.{post_teacher_to_white, post_white_to_teacher}
use ec_server.Handlers.Types.{
  ct_init_scene_finished, st_init_scene_finished, ct_cartoon_game_start, st_cartoon_game_start,
  ct_cartoon_play, st_cartoon_play, ct_cartoon_pause, st_cartoon_pause, ct_cartoon_stop,
  st_cartoon_stop, ct_cartoon_game_end, st_cartoon_game_end, ct_exercise_game_start,
  st_exercise_game_start, ct_exercise_play, st_exercise_play, ct_exercise_pause, st_exercise_pause,
  ct_exercise_stop, st_exercise_stop, ct_exercise_game_end, st_exercise_game_end,
  ct_build_house_cai_hong_xiao_wu, st_build_house_cai_hong_xiao_wu, ct_build_house_cai_hong_gu,
  st_build_house_cai_hong_gu, ct_build_house_xiao_guai_wu, st_build_house_xiao_guai_wu,
  ct_build_house_mu_bu, st_build_house_mu_bu, ct_build_house_single_mode,
  st_build_house_single_mode, ct_build_house_group_mode, st_build_house_group_mode,
  ct_build_house_email_tibet, st_build_house_email_tibet, ct_build_house_email_america,
  st_build_house_email_america, ct_build_house_activation, st_build_house_activation,
  ct_build_house_role, st_build_house_role, ct_build_house_screen_shot, st_build_house_screenshot,
  ct_common_playor_pause, st_common_playor_pause, ct_common_resume, st_common_resume,
  ct_common_stop, st_common_stop, ct_puzzle_icon_status, st_puzzle_icon_status, ct_puzzle_play,
  st_puzzle_play, ct_puzzle_pause, st_puzzle_pause, ct_puzzle_selected_type,
  st_puzzle_selected_type, ct_puzzle_selected_size, st_puzzle_selected_size,
  ct_show_sprite_animation, st_show_sprite_animation, ct_show_sprite_control,
  st_show_sprite_control, ct_control_level, st_control_level,
}

-- The body that these handlers share: the message is passed on if it is of the handler's type.
unfoldable pub relay_to_white : ℕ → ℕ → Option ℕ → Server → Server
unfolding post_teacher_to_white
relay_to_white c_type s_type none s = s
relay_to_white c_type s_type (some p) s =
    if (s.bufs p).c_type == c_type then (post_teacher_to_white (some p) s_type s).1 else s

unfoldable pub handle_cartoon_game_start : Option ℕ → Server → Server
unfolding relay_to_white
handle_cartoon_game_start = relay_to_white ct_cartoon_game_start st_cartoon_game_start

unfoldable pub handle_cartoon_play : Option ℕ → Server → Server
unfolding relay_to_white
handle_cartoon_play = relay_to_white ct_cartoon_play st_cartoon_play

unfoldable pub handle_cartoon_pause : Option ℕ → Server → Server
unfolding relay_to_white
handle_cartoon_pause = relay_to_white ct_cartoon_pause st_cartoon_pause

unfoldable pub handle_cartoon_stop : Option ℕ → Server → Server
unfolding relay_to_white
handle_cartoon_stop = relay_to_white ct_cartoon_stop st_cartoon_stop

unfoldable pub handle_cartoon_game_end : Option ℕ → Server → Server
unfolding relay_to_white
handle_cartoon_game_end = relay_to_white ct_cartoon_game_end st_cartoon_game_end

unfoldable pub handle_exercise_game_start : Option ℕ → Server → Server
unfolding relay_to_white
handle_exercise_game_start = relay_to_white ct_exercise_game_start st_exercise_game_start

unfoldable pub handle_exercise_play : Option ℕ → Server → Server
unfolding relay_to_white
handle_exercise_play = relay_to_white ct_exercise_play st_exercise_play

unfoldable pub handle_exercise_pause : Option ℕ → Server → Server
unfolding relay_to_white
handle_exercise_pause = relay_to_white ct_exercise_pause st_exercise_pause

unfoldable pub handle_exercise_stop : Option ℕ → Server → Server
unfolding relay_to_white
handle_exercise_stop = relay_to_white ct_exercise_stop st_exercise_stop

unfoldable pub handle_exercise_game_end : Option ℕ → Server → Server
unfolding relay_to_white
handle_exercise_game_end = relay_to_white ct_exercise_game_end st_exercise_game_end

unfoldable pub handle_build_house_cai_hong_xiao_wu : Option ℕ → Server → Server
unfolding relay_to_white
handle_build_house_cai_hong_xiao_wu =
    relay_to_white ct_build_house_cai_hong_xiao_wu st_build_house_cai_hong_xiao_wu

unfoldable pub handle_build_house_cai_hong_gu : Option ℕ → Server → Server
unfolding relay_to_white
handle_build_house_cai_hong_gu =
    relay_to_white ct_build_house_cai_hong_gu st_build_house_cai_hong_gu

unfoldable pub handle_build_house_xiao_guai_wu : Option ℕ → Server → Server
unfolding relay_to_white
handle_build_house_xiao_guai_wu =
    relay_to_white ct_build_house_xiao_guai_wu st_build_house_xiao_guai_wu

unfoldable pub handle_build_house_mu_bu : Option ℕ → Server → Server
unfolding relay_to_white
handle_build_house_mu_bu = relay_to_white ct_build_house_mu_bu st_build_house_mu_bu

unfoldable pub handle_build_house_single_mode : Option ℕ → Server → Server
unfolding relay_to_white
handle_build_house_single_mode =
    relay_to_white ct_build_house_single_mode st_build_house_single_mode

unfoldable pub handle_build_house_group_mode : Option ℕ → Server → Server
unfolding relay_to_white
handle_build_house_group_mode = relay_to_white ct_build_house_group_mode st_build_house_group_mode

unfoldable pub handle_build_house_email_tibet : Option ℕ → Server → Server
unfolding relay_to_white
handle_build_house_email_tibet =
    relay_to_white ct_build_house_email_tibet st_build_house_email_tibet

unfoldable pub handle_build_house_email_america : Option ℕ → Server → Server
unfolding relay_to_white
handle_build_house_email_america =
    relay_to_white ct_build_house_email_america st_build_house_email_america

unfoldable pub handle_build_house_activation : Option ℕ → Server → Server
unfolding relay_to_white
handle_build_house_activation = relay_to_white ct_build_house_activation st_build_house_activation

unfoldable pub handle_build_house_role : Option ℕ → Server → Server
unfolding relay_to_white
handle_build_house_role = relay_to_white ct_build_house_role st_build_house_role

unfoldable pub handle_build_house_screen_shot : Option ℕ → Server → Server
unfolding relay_to_white
handle_build_house_screen_shot = relay_to_white ct_build_house_screen_shot st_build_house_screenshot

unfoldable pub handle_common_playor_pause : Option ℕ → Server → Server
unfolding relay_to_white
handle_common_playor_pause = relay_to_white ct_common_playor_pause st_common_playor_pause

unfoldable pub handle_common_resume : Option ℕ → Server → Server
unfolding relay_to_white
handle_common_resume = relay_to_white ct_common_resume st_common_resume

unfoldable pub handle_common_stop : Option ℕ → Server → Server
unfolding relay_to_white
handle_common_stop = relay_to_white ct_common_stop st_common_stop

unfoldable pub handle_puzzle_icon_status : Option ℕ → Server → Server
unfolding relay_to_white
handle_puzzle_icon_status = relay_to_white ct_puzzle_icon_status st_puzzle_icon_status

unfoldable pub handle_puzzle_play : Option ℕ → Server → Server
unfolding relay_to_white
handle_puzzle_play = relay_to_white ct_puzzle_play st_puzzle_play

unfoldable pub handle_puzzle_pause : Option ℕ → Server → Server
unfolding relay_to_white
handle_puzzle_pause = relay_to_white ct_puzzle_pause st_puzzle_pause

unfoldable pub handle_puzzle_selected_type : Option ℕ → Server → Server
unfolding relay_to_white
handle_puzzle_selected_type = relay_to_white ct_puzzle_selected_type st_puzzle_selected_type

unfoldable pub handle_puzzle_selected_size : Option ℕ → Server → Server
unfolding relay_to_white
handle_puzzle_selected_size = relay_to_white ct_puzzle_selected_size st_puzzle_selected_size

unfoldable pub handle_show_sprite_animation : Option ℕ → Server → Server
unfolding relay_to_white
handle_show_sprite_animation = relay_to_white ct_show_sprite_animation st_show_sprite_animation

unfoldable pub handle_show_sprite_control : Option ℕ → Server → Server
unfolding relay_to_white
handle_show_sprite_control = relay_to_white ct_show_sprite_control st_show_sprite_control

unfoldable pub handle_control_level : Option ℕ → Server → Server
unfolding relay_to_white
handle_control_level = relay_to_white ct_control_level st_control_level

-- The whiteboard's message goes to the teacher.
unfoldable pub handle_init_scene_finished : Option ℕ → Server → Option Server
unfolding post_white_to_teacher
handle_init_scene_finished none s = some s
handle_init_scene_finished (some p) s =
    if (s.bufs p).c_type == ct_init_scene_finished
    then (post_white_to_teacher (some p) st_init_scene_finished s >>= λ r. some r.1)
    else some s

-- ===== src/Handlers/Types.antt =====
-- protocol.h: the numbers of the message types, enum CommandType, that the modelled handlers use.
use ec_server.Base.{ℕ}

abbrev pub ct_cartoon_game_start : ℕ
ct_cartoon_game_start = 500

abbrev pub st_cartoon_game_start : ℕ
st_cartoon_game_start = 501

abbrev pub ct_cartoon_play : ℕ
ct_cartoon_play = 502

abbrev pub st_cartoon_play : ℕ
st_cartoon_play = 503

abbrev pub ct_cartoon_pause : ℕ
ct_cartoon_pause = 504

abbrev pub st_cartoon_pause : ℕ
st_cartoon_pause = 505

abbrev pub ct_cartoon_stop : ℕ
ct_cartoon_stop = 506

abbrev pub st_cartoon_stop : ℕ
st_cartoon_stop = 507

abbrev pub ct_cartoon_game_end : ℕ
ct_cartoon_game_end = 508

abbrev pub st_cartoon_game_end : ℕ
st_cartoon_game_end = 509

abbrev pub ct_exercise_game_start : ℕ
ct_exercise_game_start = 400

abbrev pub st_exercise_game_start : ℕ
st_exercise_game_start = 401

abbrev pub ct_exercise_play : ℕ
ct_exercise_play = 402

abbrev pub st_exercise_play : ℕ
st_exercise_play = 403

abbrev pub ct_exercise_pause : ℕ
ct_exercise_pause = 404

abbrev pub st_exercise_pause : ℕ
st_exercise_pause = 405

abbrev pub ct_exercise_stop : ℕ
ct_exercise_stop = 406

abbrev pub st_exercise_stop : ℕ
st_exercise_stop = 407

abbrev pub ct_exercise_game_end : ℕ
ct_exercise_game_end = 408

abbrev pub st_exercise_game_end : ℕ
st_exercise_game_end = 409

abbrev pub ct_build_house_cai_hong_xiao_wu : ℕ
ct_build_house_cai_hong_xiao_wu = 600

abbrev pub st_build_house_cai_hong_xiao_wu : ℕ
st_build_house_cai_hong_xiao_wu = 601

abbrev pub ct_build_house_cai_hong_gu : ℕ
ct_build_house_cai_hong_gu = 602

abbrev pub st_build_house_cai_hong_gu : ℕ
st_build_house_cai_hong_gu = 603

abbrev pub ct_build_house_xiao_guai_wu : ℕ
ct_build_house_xiao_guai_wu = 604

abbrev pub st_build_house_xiao_guai_wu : ℕ
st_build_house_xiao_guai_wu = 605

abbrev pub ct_build_house_mu_bu : ℕ
ct_build_house_mu_bu = 606

abbrev pub st_build_house_mu_bu : ℕ
st_build_house_mu_bu = 607

abbrev pub ct_build_house_single_mode : ℕ
ct_build_house_single_mode = 610

abbrev pub st_build_house_single_mode : ℕ
st_build_house_single_mode = 611

abbrev pub ct_build_house_group_mode : ℕ
ct_build_house_group_mode = 612

abbrev pub st_build_house_group_mode : ℕ
st_build_house_group_mode = 613

abbrev pub ct_build_house_email_tibet : ℕ
ct_build_house_email_tibet = 626

abbrev pub st_build_house_email_tibet : ℕ
st_build_house_email_tibet = 627

abbrev pub ct_build_house_email_america : ℕ
ct_build_house_email_america = 628

abbrev pub st_build_house_email_america : ℕ
st_build_house_email_america = 629

abbrev pub ct_build_house_activation : ℕ
ct_build_house_activation = 644

abbrev pub st_build_house_activation : ℕ
st_build_house_activation = 645

abbrev pub ct_build_house_role : ℕ
ct_build_house_role = 646

abbrev pub st_build_house_role : ℕ
st_build_house_role = 647

abbrev pub ct_build_house_screen_shot : ℕ
ct_build_house_screen_shot = 651

abbrev pub st_build_house_screenshot : ℕ
st_build_house_screenshot = 652

abbrev pub ct_common_playor_pause : ℕ
ct_common_playor_pause = 188

abbrev pub st_common_playor_pause : ℕ
st_common_playor_pause = 189

abbrev pub ct_common_resume : ℕ
ct_common_resume = 190

abbrev pub st_common_resume : ℕ
st_common_resume = 191

abbrev pub ct_common_stop : ℕ
ct_common_stop = 192

abbrev pub st_common_stop : ℕ
st_common_stop = 193

abbrev pub ct_puzzle_icon_status : ℕ
ct_puzzle_icon_status = 706

abbrev pub st_puzzle_icon_status : ℕ
st_puzzle_icon_status = 707

abbrev pub ct_puzzle_play : ℕ
ct_puzzle_play = 708

abbrev pub st_puzzle_play : ℕ
st_puzzle_play = 709

abbrev pub ct_puzzle_pause : ℕ
ct_puzzle_pause = 710

abbrev pub st_puzzle_pause : ℕ
st_puzzle_pause = 711

abbrev pub ct_puzzle_selected_type : ℕ
ct_puzzle_selected_type = 721

abbrev pub st_puzzle_selected_type : ℕ
st_puzzle_selected_type = 722

abbrev pub ct_puzzle_selected_size : ℕ
ct_puzzle_selected_size = 723

abbrev pub st_puzzle_selected_size : ℕ
st_puzzle_selected_size = 724

abbrev pub ct_show_sprite_animation : ℕ
ct_show_sprite_animation = 200

abbrev pub st_show_sprite_animation : ℕ
st_show_sprite_animation = 201

abbrev pub ct_show_sprite_control : ℕ
ct_show_sprite_control = 300

abbrev pub st_show_sprite_control : ℕ
st_show_sprite_control = 301

abbrev pub ct_control_level : ℕ
ct_control_level = 302

abbrev pub st_control_level : ℕ
st_control_level = 303

abbrev pub ct_init_scene_finished : ℕ
ct_init_scene_finished = 104

abbrev pub st_init_scene_finished : ℕ
st_init_scene_finished = 105

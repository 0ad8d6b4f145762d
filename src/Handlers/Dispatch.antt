-- ===== src/Handlers/Dispatch.antt =====
-- What becomes of a message that RecvTask.cpp hands to one of the handlers.
use mathlib.Core.List.{Perm}
use ec_server.Base.{
  ℕ, suc, ◌≡◌, inl, inr, refl, sym, ap, List, [], ◌∷◌, Option, none, some, ◌==◌, Map, find, map,
  subst, ==_iff, arith, Bool-cases, eq→==,
}
use ec_server.Server.{Server}
use ec_server.Messages.{post_teacher_to_white}
use ec_server.Messages.Relay.{buffers, relay-Perm}
use ec_server.Handlers.Relays.{relay_to_white}
use ec_server.Handlers.Table.{m_handle_map, dispatch}
use ec_server.Handlers.Types.{
  ct_common_playor_pause, ct_common_resume, ct_common_stop, ct_show_sprite_animation,
  ct_show_sprite_control, ct_control_level, ct_exercise_game_start, ct_exercise_play,
  ct_exercise_pause, ct_exercise_stop, ct_exercise_game_end, ct_cartoon_game_start, ct_cartoon_play,
  ct_cartoon_pause, ct_cartoon_stop, ct_cartoon_game_end, ct_build_house_cai_hong_xiao_wu,
  ct_build_house_cai_hong_gu, ct_build_house_xiao_guai_wu, ct_build_house_mu_bu,
  ct_build_house_single_mode, ct_build_house_group_mode, ct_build_house_email_tibet,
  ct_build_house_email_america, ct_build_house_activation, ct_build_house_role,
  ct_build_house_screen_shot, ct_puzzle_icon_status, ct_puzzle_play, ct_puzzle_pause,
  ct_puzzle_selected_type, ct_puzzle_selected_size,
}

-- A handler for a type passes a message of it on under the type after it.
abbrev PassesOn : ℕ → (Option ℕ → Server → Server) → Type 0
PassesOn c_type handle =
    (p : ℕ) (s : Server)
    → (s.bufs p).c_type ≡ c_type
    → handle (some p) s ≡ (post_teacher_to_white (some p) (suc c_type) s).1

relay_to_white-PassesOn : (c_type : ℕ) → PassesOn c_type (relay_to_white c_type (suc c_type))
unfolding relay_to_white
relay_to_white-PassesOn c_type p s e = rw (eq→== (s.bufs p).c_type c_type e) refl

abbrev AllPassOn : Map (Option ℕ → Server → Server) → Type 0
AllPassOn [] = Unit {0}
AllPassOn ((c_type, handle) ∷ m) = PassesOn c_type handle × AllPassOn m

abbrev from_some : {A : Type 0} → A → Option A → A
from_some a none = a
from_some a (some b) = b

find-PassesOn :
    (m : Map (Option ℕ → Server → Server)) (k : ℕ) (handle : Option ℕ → Server → Server)
    → AllPassOn m
    → find k m ≡ some handle
    → PassesOn k handle
unfolding find
find-PassesOn [] k handle a e = absurd (ground arith)
find-PassesOn ((j, h) ∷ m) k handle a e = elim (Bool-cases (j == k)) [
  | inl hit ↦
      subst (λ i. PassesOn i handle) ((==_iff j k).0 hit)
        (subst (λ x. PassesOn j x) (ap (from_some h) (rw hit at e)) a.0)
  | inr miss ↦ find-PassesOn m k handle a.1 (rw miss at e)
]

-- The types of the modelled handlers, in the order of the table.
abbrev types : List ℕ
types =
    ct_common_playor_pause ∷ ct_common_resume ∷ ct_common_stop ∷ ct_show_sprite_animation
    ∷ ct_show_sprite_control ∷ ct_control_level ∷ ct_exercise_game_start ∷ ct_exercise_play
    ∷ ct_exercise_pause ∷ ct_exercise_stop ∷ ct_exercise_game_end ∷ ct_cartoon_game_start
    ∷ ct_cartoon_play ∷ ct_cartoon_pause ∷ ct_cartoon_stop ∷ ct_cartoon_game_end
    ∷ ct_build_house_cai_hong_xiao_wu ∷ ct_build_house_cai_hong_gu ∷ ct_build_house_xiao_guai_wu
    ∷ ct_build_house_mu_bu ∷ ct_build_house_single_mode ∷ ct_build_house_group_mode
    ∷ ct_build_house_email_tibet ∷ ct_build_house_email_america ∷ ct_build_house_activation
    ∷ ct_build_house_role ∷ ct_build_house_screen_shot ∷ ct_puzzle_icon_status ∷ ct_puzzle_play
    ∷ ct_puzzle_pause ∷ ct_puzzle_selected_type ∷ ct_puzzle_selected_size ∷ []

abbrev entry : ℕ → ℕ × (Option ℕ → Server → Server)
entry c_type = (c_type, relay_to_white c_type (suc c_type))

map-AllPassOn : (ks : List ℕ) → AllPassOn (map entry ks)
map-AllPassOn [] = tt
map-AllPassOn (k ∷ ks) = (relay_to_white-PassesOn k, map-AllPassOn ks)

m_handle_map_lem : m_handle_map ≡ map entry types
unfolding m_handle_map
m_handle_map_lem = refl

-- A message for which the table has one of the modelled handlers is answered as
-- post_teacher_to_white answers it under the type that follows its own in the enumeration, and its
-- buffer is used once: it joins the pool or the send queue, and no other is added or lost.
pub dispatch-passes_on :
    (p : ℕ) (s : Server) (handle : Option ℕ → Server → Server)
    → find (s.bufs p).c_type m_handle_map ≡ some handle
    → (dispatch p s ≡ some (post_teacher_to_white (some p) (suc (s.bufs p).c_type) s).1)
      × ((r : Server) × (dispatch p s ≡ some r) × Perm (buffers r) (p ∷ buffers s))
unfolding dispatch
dispatch-passes_on p s handle e =
    let passes =
      find-PassesOn m_handle_map (s.bufs p).c_type handle
        (subst AllPassOn (sym m_handle_map_lem) (map-AllPassOn types)) e p s refl in
    let answer : dispatch p s ≡ some (post_teacher_to_white (some p) (suc (s.bufs p).c_type) s).1 =
      rw (dispatch, e) (ap some passes) in
    (answer, (_, answer, (relay-Perm p (suc (s.bufs p).c_type) s).0))

-- ===== src/Tests/Grouping.antt =====
-- How content/room.cpp divides students into groups of three.
use ec_server.Base.{ℕ, ◌≡◌, refl, [], ◌∷◌, none, some, arith, if◌then◌else◌}
use ec_server.Content.Group.{has_fd}
use ec_server.Content.Grouping.{Groups, init_buildhouse_group, get_group_by_fd}
use ec_server.Content.Grouping.Outcomes.{init_buildhouse_group-one}

-- No group has been made yet.
abbrev none_yet : Groups ℕ
none_yet = record { heap = λ p. none; next = 50; m_buildhouse_groups = [] }

abbrev found : ℕ → ℕ
found p = 0

init_buildhouse_group-one_example :
    (r : Groups ℕ) × (init_buildhouse_group found 3 ((7, 107) ∷ (8, 108) ∷ []) none_yet ≡ some r)
    × ((fd : ℕ)
        → get_group_by_fd fd r
          ≡ some (if has_fd fd ((7, 107) ∷ (8, 108) ∷ []) then some 50 else none))
init_buildhouse_group-one_example =
    init_buildhouse_group-one found 3 ((7, 107) ∷ (8, 108) ∷ []) none_yet (ground arith)
      (omega arith) (omega arith) refl

-- ===== src/Content/Room/Lookup.antt =====
-- What the lookups of content/room.cpp and content/roommanager.cpp find.
use ec_server.Base.{
  ℕ, ◌≡◌, ◌⊎◌, inl, inr, refl, ap, [], ◌∷◌, ◌++◌, Option, none, some, true, false, ◌==◌,
  if◌then◌else◌, Map, find, insert, erase, IsSorted, insert-Above, erase-Above, find-insert,
  find-erase, arith, Bool-cases, Option-cases, ◌>>=◌,
}
use ec_server.Content.Room.{CStudent, CRoom, add_student, has_client, get_room_by_fd}

-- No room of the list has the client.
abbrev pub Lacks : ℕ → Map CRoom → Type 0
Lacks fd [] = Unit {0}
Lacks fd ((id, room) ∷ rooms) = (has_client fd room ≡ false) × Lacks fd rooms

-- CRoomManager::get_room_by_fd gives the first room that has the client, and a null pointer only if no
-- room has it.
get_room_by_fd-first :
    (fd : ℕ) (rooms : Map CRoom)
    → ((get_room_by_fd fd rooms ≡ none) × Lacks fd rooms)
      ⊎ ((before : Map CRoom) × (id : ℕ) × (room : CRoom) × (after : Map CRoom) × (get_room_by_fd fd
              rooms
            ≡ some room)
          × (rooms ≡ before ++ (id, room) ∷ after)
          × Lacks fd before
          × (has_client fd room ≡ true))
unfolding get_room_by_fd
get_room_by_fd-first fd [] = inl (refl, tt)
get_room_by_fd-first fd ((id, room) ∷ rooms) = elim (Bool-cases (has_client fd room)) [
  | inl here ↦ inr ([], id, room, rooms, rw (get_room_by_fd, here) refl, refl, tt, here)
  | inr other ↦ elim (get_room_by_fd-first fd rooms) [
    | inl (e, lacks) ↦ inl (rw (get_room_by_fd, other) e, (other, lacks))
    | inr (before, id', found, after, e, split, lacks, has) ↦ inr (
      (id, room) ∷ before,
      id',
      found,
      after,
      rw (get_room_by_fd, other) e,
      ap (λ rs. (id, room) ∷ rs) split,
      (other, lacks),
      has,
    )
  ]
]

-- Each entry's student is there.
abbrev pub Living : (ℕ → Option CStudent) → Map ℕ → Type 0
Living students [] = Unit {0}
Living students ((fd, p) ∷ m) =
    ((student : CStudent) × (students p ≡ some student)) × Living students m

Living-find :
    (fd p : ℕ) (students : ℕ → Option CStudent) (m : Map ℕ)
    → Living students m
    → find fd m ≡ some p
    → (student : CStudent) × (students p ≡ some student)
unfolding find
Living-find fd p students [] l e = absurd (ground arith)
Living-find fd p students ((k, q) ∷ m) l e = elim (Bool-cases (k == fd)) [
  | inl hit ↦ let same : q ≡ p = ground arith in rw (← same) l.0
  | inr miss ↦ Living-find fd p students m l.1 (ground arith)
]

-- `add_student` to a room whose students are all there has a defined result: the descriptor leads to
-- the new student, the other descriptors to whom they led before, and a student who had the descriptor
-- before is deleted.
add_student-find :
    (fd p : ℕ) (students : ℕ → Option CStudent) (room : CRoom)
    → IsSorted room.m_student_map
    → Living students room.m_student_map
    → (students' : ℕ → Option CStudent) × (room' : CRoom) × (add_student fd p students room
        ≡ some (students', room'))
      × IsSorted room'.m_student_map
      × ((j : ℕ)
          → find j room'.m_student_map ≡ (if fd == j then some p else find j room.m_student_map))
      × ((find fd room.m_student_map >>= students') ≡ none)
unfolding add_student
add_student-find fd p students room sorted living =
    elim (Option-cases (find fd room.m_student_map)) [
      | inl gone ↦ (
        students,
        record room { m_student_map = insert fd p room.m_student_map },
        rw (add_student, gone) refl,
        insert-Above 0 fd p room.m_student_map (omega arith) sorted,
        λ j. ground (arith, find-insert 0 fd j p room.m_student_map sorted, gone),
        rw gone refl,
      )
      | inr (old, found) ↦
          let (student, there) = Living-find fd old students room.m_student_map living found in
          (
            λ q. if old == q then none else students q,
            record room { m_student_map = insert fd p (erase fd room.m_student_map) },
            rw (add_student, found) (rw there refl),
            insert-Above 0 fd p (erase fd room.m_student_map) (omega arith)
                (erase-Above 0 fd room.m_student_map sorted),
            λ j. ground (
              arith,
              find-insert 0 fd j p (erase fd room.m_student_map)
                  (erase-Above 0 fd room.m_student_map sorted),
              find-erase 0 fd fd room.m_student_map sorted,
              find-erase 0 fd j room.m_student_map sorted,
            ),
            rw found (ground arith),
          )
    ]

-- ===== src/Tests/GroupMessages.antt =====
-- Messages of a group with two students.
use ec_server.Base.{ℕ, ◌≡◌, refl, [], ◌∷◌, some, Map, arith}
use ec_server.Server.{Server}
use ec_server.Messages.Copies.{Ready}
use ec_server.GroupMessages.{broadcast, send_to_other_student}
use ec_server.GroupMessages.Copies.{Copied, group-Addressed}
use ec_server.Tests.Messages.{bytes, server}

abbrev members : Map ℕ
members = (7, 107) ∷ (8, 108) ∷ []

members-Ready : Ready 50 (server []).bufs (51 ∷ 52 ∷ [])
members-Ready = (omega arith, refl, (omega arith, tt), (omega arith, refl, tt, tt))

group-Addressed_example :
    ((r : Server) × (send_to_other_student (some 50) 21 members (server (51 ∷ 52 ∷ 53 ∷ []))
        ≡ some r)
      × (r.sendqueue ≡ 51 ∷ 52 ∷ [])
      × (r.bufpool.m_queue ≡ 53 ∷ 50 ∷ [])
      × Copied (λ fd. fd) r.bufs 12 21 (bytes 5112) (51 ∷ 52 ∷ []) members)
    × ((r : Server) × (broadcast (some 50) members (server (51 ∷ 52 ∷ 53 ∷ [])) ≡ some r)
        × (r.sendqueue ≡ 51 ∷ 52 ∷ [])
        × (r.bufpool.m_queue ≡ 53 ∷ 50 ∷ [])
        × Copied (λ _. 3) r.bufs 12 20 (bytes 5112) (51 ∷ 52 ∷ []) members)
group-Addressed_example =
    group-Addressed 50 (server (51 ∷ 52 ∷ 53 ∷ [])) members 21 (51 ∷ 52 ∷ []) (53 ∷ []) refl refl
      (omega arith) refl members-Ready

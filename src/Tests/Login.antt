-- ===== src/Tests/Login.antt =====
-- A teacher who gives the beginning of the stored password "abc".
use ec_server.Base.{◌≡◌, refl, List, ℕ, [], ◌∷◌, ◌++◌, some, codes, length, take, drop, arith}
use ec_server.Socket.{word}
use ec_server.Server.{Server}
use ec_server.Messages.Copies.{Message}
use ec_server.Departure.{le_word}
use ec_server.Departure.Letters.{Kept}
use ec_server.PuzzleGame.{zeros}
use ec_server.Records.{teacher_login, by_text, Row, Database}
use ec_server.Records.Questions.{c_string}
use ec_server.Login.{ct_login_result, rows_of, last_string, login_out, check}
use ec_server.Login.Passwords.{check-beginning}
use ec_server.Tests.Messages.{server}

stored : Row
stored = record { get_int = λ name. 0; get_string = λ name. codes "abc" }

abbrev db : Database
db q params = some (stored ∷ [])

-- The type of a teacher, the name "t" and the password "a".
abbrev message : List ℕ
message = le_word 2 ++ (codes "t" ++ (zeros 19 ++ (codes "a" ++ zeros 5087)))

abbrev login_server : Server
login_server = record (server []) {
  bufs = λ p. record { c_len = 52; c_type = 150; c_data = message; used = 52; fd = 3 };
}

name : c_string (take 20 (drop 4 message)) ≡ some (codes "t")
unfolding c_string zeros
name = refl

password : c_string (take 20 (drop 24 message)) ≡ some (codes "a")
unfolding c_string zeros
password = refl

begins :
    last_string "password" [] (rows_of (db teacher_login (by_text (codes "t") ∷ [])))
    ≡ codes "a" ++ codes "bc"
unfolding last_string rows_of stored
begins = refl

two : word message ≡ 2
unfolding word
two = refl

long : length message ≡ 5112
unfolding zeros
long = refl

check-beginning_example :
    (r : Server) × (check db 50 login_server ≡ some r)
    × (r.sendqueue ≡ 50 ∷ [])
    × (r.bufpool ≡ (server []).bufpool)
    × Message (r.bufs 50) 3 62 ct_login_result (login_out 0)
    × Kept login_server r
check-beginning_example =
    check-beginning db 50 (codes "t") (codes "a") (codes "bc") login_server two name password begins
      (omega arith) (omega (arith, long))

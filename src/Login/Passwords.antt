-- ===== src/Login/Passwords.antt =====
-- What content/LoginCheck.cpp takes for a password.
use ec_server.Base.{
  ℕ, ◌≤◌, ◌<◌, ◌≡◌, refl, [], ◌∷◌, ◌++◌, some, true, Text, starts_with, length, take, drop, arith,
  eq→==, ◌==◌, lt→ltb, Bool-cases, inl, inr,
}
use ec_server.Socket.{word}
use ec_server.Server.{Server, with_buf, enqueue_buf}
use ec_server.Messages.Copies.{Message}
use ec_server.Departure.Letters.{Kept}
use ec_server.Departure.Sending.{memcpy-exact, take-exact}
use ec_server.PuzzleGame.{zeros}
use ec_server.ClassRoom.{send_sized}
use ec_server.Records.{teacher_login, by_text, Database}
use ec_server.Records.Questions.{c_string}
use ec_server.Login.{
  ct_login_result, rows_of, last_string, login_teacher, login, login_out, answer_login, check,
}

starts_with-append : (xs ys : Text) → starts_with (xs ++ ys) xs ≡ true
unfolding starts_with
starts_with-append [] [] = refl
starts_with-append [] (y ∷ ys) = refl
starts_with-append (x ∷ xs) ys = ground (arith, starts_with-append xs ys)

length-login_out : (result : ℕ) → length (login_out result) ≡ 54
unfolding login_out zeros
length-login_out result = elim (Bool-cases (result == 0)) [
  | inl e ↦ rw (login_out, e) refl
  | inr e ↦ rw (login_out, e) refl
]

answer_login-Message :
    (p result : ℕ) (s : Server)
    → 54 ≤ length (s.bufs p).c_data
    → (r : Server) × (answer_login p result s ≡ some r)
      × (r.sendqueue ≡ s.sendqueue ++ p ∷ [])
      × (r.bufpool ≡ s.bufpool)
      × Message (r.bufs p) (s.bufs p).fd 62 ct_login_result (login_out result)
      × Kept s r
unfolding answer_login send_sized with_buf enqueue_buf
answer_login-Message p result s big =
    let bytes = login_out result ++ drop 54 (s.bufs p).c_data in
    let copied =
      memcpy-exact 54 (login_out result) (s.bufs p).c_data (length-login_out result) big in
    (
      send_sized p 62
          (with_buf p (λ b. record b { c_len = 62; c_type = ct_login_result; c_data = bytes }) s),
      rw (copied, answer_login) refl,
      refl,
      refl,
      rw (eq→== p p refl) (record {
        for_fd = refl;
        of_type = refl;
        of_len = refl;
        sends_all = refl;
        same_data =
            take-exact 54 (login_out result) (drop 54 (s.bufs p).c_data) (length-login_out result);
      }),
      (refl, refl),
    )

-- A client logs in as a teacher with a password that is not empty and that the stored password begins
-- with; the texts of the message end within their arrays, and the buffer has place for the answer. Then
-- the client is answered that the login succeeded, whatever the rest of the stored password is; students,
-- rooms and pool stay as they are.
pub check-beginning :
    (db : Database) (p : ℕ) (username password rest : Text) (s : Server)
    → word (s.bufs p).c_data ≡ 2
    → c_string (take 20 (drop 4 (s.bufs p).c_data)) ≡ some username
    → c_string (take 20 (drop 24 (s.bufs p).c_data)) ≡ some password
    → last_string "password" [] (rows_of (db teacher_login (by_text username ∷ [])))
      ≡ password ++ rest
    → 0 < length password
    → 54 ≤ length (s.bufs p).c_data
    → (r : Server) × (check db p s ≡ some r)
      × (r.sendqueue ≡ s.sendqueue ++ p ∷ [])
      × (r.bufpool ≡ s.bufpool)
      × Message (r.bufs p) (s.bufs p).fd 62 ct_login_result (login_out 0)
      × Kept s r
unfolding check login login_teacher
check-beginning db p username password rest s teacher user pass stored more big =
    let (r, e, queue, pool, message, kept) = answer_login-Message p 0 s big in
    (
      r,
      rw (user, check)
          (rw pass (
            rw (teacher, login)
              (rw (stored, login_teacher)
                (rw (starts_with-append password rest) (rw (lt→ltb 0 (length password) more) e))))),
      queue,
      pool,
      message,
      kept,
    )

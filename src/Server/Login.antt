-- ===== src/Server/Login.antt =====
-- soy-server/app/requests/auth.py and the sessions of pc_bridge.py.
use iot_repo.Base.{
  ℕ, Bool, true, false, not, List, [], ◌∷◌, Option, none, some, ltb, if◌then◌else◌, length,
}
use iot_repo.Base.Text.{Bytes, codes, bytes_eq}
use iot_repo.Operator.Words.{strip, is_empty}
use iot_repo.Server.{
  Host, no_admin_registered, password_required, wrong_password, short_password, Request, no_body,
  token_body, count_body, needs_password_body, good, ServerState,
}
use iot_repo.Server.Workers.{
  get_first_admin_id, count_admins, first_admin_needs_password, verify_admin_password,
  set_first_admin_password,
}
use iot_repo.Server.Handled.{Handled, declined, replied, refuse, catching, or_empty}

abbrev pub session_remove : Bytes → List (Bytes × ℕ) → List (Bytes × ℕ)
session_remove token [] = []
session_remove token ((t, aid) ∷ rest) =
    let others = session_remove token rest in if bytes_eq t token then others else (t, aid) ∷ others

abbrev pub session_add : Bytes → ℕ → List (Bytes × ℕ) → List (Bytes × ℕ)
session_add token aid sessions = (token, aid) ∷ session_remove token sessions

abbrev pub has_session : Bytes → List (Bytes × ℕ) → Bool
has_session token [] = false
has_session token ((t, aid) ∷ rest) =
    let others = has_session token rest in if bytes_eq t token then true else others

module _ (h : Host) where
  -- A password that is right opens a session for the first admin.
  abbrev pub login : Request → ServerState → Option ℕ → Handled
  login r s none = refuse s no_admin_registered
  login r s (some aid) =
      replied (good (token_body r.uuid4 aid))
        (record s { sessions = session_add r.uuid4 aid s.sessions })

  abbrev pub admin_login : Request → ServerState → Handled
  admin_login r s =
      let password = strip (or_empty r.body.password) in
      if is_empty password
      then refuse s password_required
      else if not (verify_admin_password h password s.db)
      then refuse s wrong_password
      else login r s (get_first_admin_id s.db.admins)

  -- No token and the empty one are the same.
  abbrev pub admin_logout : ServerState → Bytes → Handled
  admin_logout s token =
      if is_empty token
      then replied (good no_body) s
      else replied (good no_body) (record s { sessions = session_remove token s.sessions })

  abbrev pub register_first_admin : Request → ServerState → Handled
  register_first_admin r s =
      let password = strip (or_empty r.body.password) in
      if is_empty password
      then refuse s password_required
      else if ltb (length password) 4
      then refuse s short_password
      else catching s (λ _. no_body) (set_first_admin_password h password r.salt s.db)

  -- auth.handle.
  unfoldable pub auth_handle : Request → ServerState → Handled
  unfolding strip
  auth_handle r s =
      let action = strip r.action in
      if bytes_eq action (codes "admin_login")
      then admin_login r s
      else if bytes_eq action (codes "admin_logout")
      then admin_logout s (or_empty r.body.auth_token)
      else if bytes_eq action (codes "admin_count")
      then replied (good (count_body (count_admins s.db.admins))) s
      else if bytes_eq action (codes "first_admin_needs_password")
      then replied (good (needs_password_body (first_admin_needs_password s.db.admins))) s
      else if bytes_eq action (codes "register_first_admin")
      then register_first_admin r s
      else declined

-- ===== src/Comet/Login/Tests.antt =====
-- A login of the user 16 with a function that stands for md5.
use slot_golang.Base.{
  ℕ, ◌≡◌, refl, true, false, List, [], ◌∷◌, some, inr, arith, ◌==◌, if◌then◌else◌,
}
use slot_golang.Base.Int64.{ℤ, pos, sub64}
use slot_golang.Comet.Login.{get_login_params, login_text, token, is_auth}
use slot_golang.Base.Maps.{lookup}
use slot_golang.Base.Run.{done}
use slot_golang.Comet.Redis.{Host, count_of, in_use}
use slot_golang.Comet.Sessions.{Session, init_session_list, find}
use slot_golang.Comet.Login.Connection.{Site, ws_open, ws_close}
use slot_golang.Comet.Login.Connection.Undone.{ws_close-ws_open}
use slot_golang.Comet.Login.Accepted.{is_auth-login_text}

abbrev digest : List ℕ → List ℕ
digest text = 1 ∷ 2 ∷ 3 ∷ text

is_auth-login_text_example :
    (get_login_params (login_text (pos 16) 1000 90 (token 1030 digest (pos 16) 1000 90))
      ≡ some (pos 16, 1000, 90, token 1030 digest (pos 16) 1000 90))
    × (is_auth 1030 digest (pos 16) 1000 90 (token 1030 digest (pos 16) 1000 90) ≡ true)
is_auth-login_text_example =
    is_auth-login_text 1030 digest (pos 16) 1000 90 (omega arith) (omega arith) (omega arith)
      (omega arith) (inr ((omega arith), (omega arith)))

-- The phone 2 of the user 16, on the comet "a".
abbrev phone : Session
phone = record { number = 1; uid = pos 18; binded_ids = [] }

abbrev site : Site
site = record { sessions = init_session_list; hashes = []; published = []; mids = 1 ∷ 2 ∷ [] }

come_and_gone_phone :
    (site' : Site) × (site'' : Site) × (ws_open 1000 (b'a' ∷ []) true phone site
      ≡ done (some site'))
    × (ws_close 2000 (b'a' ∷ []) true true 2 phone site' ≡ done site'')
    × ((u : ℤ) → find u site''.sessions ≡ find u site.sessions)
    × ((h : Host) (u : ℤ) → count_of h u site''.hashes ≡ count_of h u site.hashes)
    × ((m : ℕ) → in_use m site''.mids ≡ (if 2 == m then false else in_use m site.mids))
unfolding sub64
come_and_gone_phone =
    ws_close-ws_open 1000 2000 (b'a' ∷ []) phone 2 site (λ u. unfold find lookup in tt) refl
      (omega arith) refl

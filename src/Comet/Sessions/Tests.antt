-- ===== src/Comet/Sessions/Tests.antt =====
-- Two sessions of a phone and a device.
use slot_golang.Base.{ℕ, ◌≡◌, ◌↔◌, ◌⊎◌, sym, subst, List, [], ◌∷◌, arith, All}
use slot_golang.Base.Int64.{ℤ, pos, negsuc}
use slot_golang.Base.Decimal.{parse_int}
use slot_golang.Base.Format.{format_int, parse_int-format_int}
use slot_golang.Base.Run.{done}
use slot_golang.Comet.Sessions.Kicked.{IsIn}
use slot_golang.Comet.Sessions.Modified.{
  IsNotice, IsMeantByAny, handle_modified_passwd, modified_passwd_closes,
}
use slot_golang.Comet.Sessions.{
  Session, SessionList, init_session_list, find, add_session, remove_session,
}
use slot_golang.Comet.Sessions.Kept.{
  IsTidy, Visit, comes, goes, run, sessions-IsTidy, remove_session-add_session,
}

abbrev session : ℕ → ℤ → Session
session number uid = record { number = number; uid = uid; binded_ids = [] }

abbrev visits : List Visit
visits =
    comes (session 1 (pos 17))
    ∷ comes (session 2 (pos 17))
    ∷ goes (session 1 (pos 17))
    ∷ goes (session 1 (pos 17))
    ∷ comes (session 3 (negsuc 4))
    ∷ []

sessions-IsTidy_example : IsTidy (run visits init_session_list)
sessions-IsTidy_example = sessions-IsTidy visits

abbrev online : SessionList
online = run visits init_session_list

come_and_gone :
    (find (pos 17) (remove_session (session 4 (pos 17)) (add_session (session 4 (pos 17)) online))
      ≡ find (pos 17) online)
    × ((remove_session (session 4 (pos 17)) (add_session (session 4 (pos 17)) online)).closed
        ≡ 4 ∷ online.closed)
come_and_gone =
    remove_session-add_session (session 4 (pos 17)) online (pos 17) (sessions-IsTidy visits)

-- The user 16 has changed the password; the second text is empty.
abbrev changed : List (List ℕ)
changed = format_int (pos 16) ∷ [] ∷ []

changed-IsNotice : All (λ text. IsNotice (parse_int text)) changed
changed-IsNotice = (
  subst IsNotice (sym (parse_int-format_int (pos 16) (omega arith)))
      (omega arith, omega arith, omega arith),
  (unfold parse_int in tt, tt),
)

modified_passwd_closes_example :
    (l' : SessionList) × (handle_modified_passwd 1000 changed online ≡ done l')
    × (l'.onlined ≡ online.onlined)
    × ((j : ℕ) → IsIn j l'.closed ↔ (IsIn j online.closed ⊎ IsMeantByAny j online changed))
modified_passwd_closes_example = modified_passwd_closes 1000 changed online changed-IsNotice

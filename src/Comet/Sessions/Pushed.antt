-- ===== src/Comet/Sessions/Pushed.antt =====
-- comet/client.go: `HandleMsg` hands each of its messages to `PushMsg` of comet/session.go, which sends it.
use slot_golang.Base.{
  ℕ, suc, ◌≡◌, refl, sym, ap, ◌∙◌, Bool, true, false, List, [], ◌∷◌, ◌++◌, ◌==◌, if◌then◌else◌,
  replicate,
}
use mathlib.Core.List.{append_assoc, append-nil}
use slot_golang.Base.Int64.{ℤ}
use slot_golang.Base.Maps.{int64_eq, lookup}
use slot_golang.Comet.Sessions.{Session, SessionList, find, block_of, or_new, send_each, push_msg}

-- The calls of `PushMsg` of a websocket comet.
unfoldable pub push_each : List (ℤ × List ℕ) → SessionList → SessionList
push_each [] l = l
push_each ((id, text) ∷ pushes) l = push_each pushes (push_msg id text l)

-- What was sent to one session, oldest first, of a log with the latest first.
unfoldable pub sent_to : ℕ → List (ℕ × List ℕ) → List (List ℕ)
sent_to j [] = []
sent_to j ((number, text) ∷ log) =
    if number == j then sent_to j log ++ (text ∷ []) else sent_to j log

-- How often a session is in a list.
unfoldable pub times_held : ℕ → List Session → ℕ
times_held j [] = 0
times_held j (s ∷ list) = if s.number == j then suc (times_held j list) else times_held j list

-- The texts that are for a session, by the lists of the ids.
unfoldable pub texts_for : ℕ → SessionList → List (ℤ × List ℕ) → List (List ℕ)
texts_for j l [] = []
texts_for j l ((id, text) ∷ pushes) =
    replicate (times_held j (or_new (find id l))) text ++ texts_for j l pushes

send_each-onlined :
    (msg : List ℕ) (list : List Session) (l : SessionList)
    → (send_each msg list l).onlined ≡ l.onlined
unfolding send_each
send_each-onlined msg [] l = refl
send_each-onlined msg (s ∷ list) l =
    send_each-onlined msg list (record l { sent = (s.number, msg) ∷ l.sent })

send_each-sent_to :
    (j : ℕ) (msg : List ℕ) (list : List Session) (l : SessionList)
    → sent_to j (send_each msg list l).sent ≡ sent_to j l.sent ++ replicate (times_held j list) msg
unfolding send_each sent_to times_held
send_each-sent_to j msg [] l = sym (append-nil (sent_to j l.sent))
send_each-sent_to j msg (s ∷ list) l =
    let more = send_each-sent_to j msg list (record l { sent = (s.number, msg) ∷ l.sent }) in
    more ∙ one (s.number == j) (sent_to j l.sent) (times_held j list)
  where
    one :
        (b : Bool) (texts : List (List ℕ)) (n : ℕ)
        → (if b then texts ++ (msg ∷ []) else texts) ++ replicate n msg
          ≡ texts ++ replicate (if b then suc n else n) msg
    one true texts n = append_assoc texts (msg ∷ []) (replicate n msg)
    one false texts n = refl

texts_for-onlined :
    (j : ℕ) (l k : SessionList) (pushes : List (ℤ × List ℕ))
    → l.onlined ≡ k.onlined
    → texts_for j l pushes ≡ texts_for j k pushes
unfolding texts_for find
texts_for-onlined j l k [] e = refl
texts_for-onlined j l k ((id, text) ∷ pushes) e =
    ap
      (λ (o : ℕ → List (ℤ × List Session)).
        replicate (times_held j (or_new (lookup id (o (block_of id))))) text
        ++ texts_for j l pushes)
      e
    ∙ ap (◌++◌ (replicate (times_held j (or_new (find id k))) text))
        (texts_for-onlined j l k pushes e)

-- Whatever `HandleMsg` has to push, in whichever state the sessions are: each session is sent, behind what it
-- was sent before and in the order of the pushes, each text as often as it is in the list of the text's id, and
-- nothing else; the lists of sessions stay as they are.
pub push_each_in_order :
    (pushes : List (ℤ × List ℕ)) (l : SessionList)
    → ((push_each pushes l).onlined ≡ l.onlined)
      × ((j : ℕ) → sent_to j (push_each pushes l).sent ≡ sent_to j l.sent ++ texts_for j l pushes)
unfolding push_each push_msg texts_for
push_each_in_order [] l = (refl, λ j. sym (append-nil (sent_to j l.sent)))
push_each_in_order ((id, text) ∷ pushes) l =
    let list = or_new (find id l) in
    let next = send_each text list l in
    let same = send_each-onlined text list l in
    let (kept, more) = push_each_in_order pushes next in
    (
      kept ∙ same,
      λ j.
          more j
          ∙ ap (λ t. sent_to j next.sent ++ t) (texts_for-onlined j next l pushes same)
          ∙ ap (λ t. t ++ texts_for j l pushes) (send_each-sent_to j text list l)
          ∙ append_assoc (sent_to j l.sent) (replicate (times_held j list) text)
              (texts_for j l pushes),
    )

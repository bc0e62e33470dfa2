-- ===== src/Hlist/Lists.antt =====
-- A plain list as the linked list `cloud-base/hlist`, for runs at concrete values.
use slot_golang.Base.{refl, Bool, List, [], ◌∷◌, length}
use slot_golang.Hlist.{Hlist, erase_at}

-- `last` says what `Next` of a removed element is.
abbrev pub list_hlist : (A : Type 0) → Bool → Hlist A
list_hlist A last = record {
  Carrier = List A;
  new = [];
  push_front = λ a h. a ∷ h;
  values = λ h. h;
  len = λ h. length h;
  remove_at = λ i h. erase_at i h;
  removed_has_no_next = last;
  values-new = refl;
  values-push_front = λ a h. refl;
  len_values = λ h. refl;
  values-remove_at = λ i h. refl;
}

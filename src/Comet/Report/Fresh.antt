-- ===== src/Comet/Report/Fresh.antt =====
-- What `ReportUsage` writes to zookeeper, and to which nodes.
use slot_golang.Base.{ℕ, ◌≡◌, ◌⊎◌, List, [], ◌∷◌, Option, All}
use slot_golang.Base.Maps.{string_eq}
use slot_golang.Comet.Report.{Text, Act, made, set_node, lost, Reporter, on_write_zk_data}

-- Since the last loss of the connection a node was made at the path, for the address.
abbrev pub IsFresh : Text → Text → List Act → Type 0
IsFresh path url [] = ⊥
IsFresh path url (made p u ∷ acts) = ((p ≡ path) × (u ≡ url)) ⊎ IsFresh path url acts
IsFresh path url (set_node p text ∷ acts) = IsFresh path url acts
IsFresh path url (lost ∷ acts) = ⊥

abbrev pub IsMade : List Act → Text × Text → Type 0
IsMade acts (path, url) = IsFresh path url acts

module _ (F : Type 0) (zero_f : F) (format_f : F → Text) (create : ℕ → Text → Option Text) where
  -- Each write went to a node that was fresh at that time, and was a status of the address of that node.
  abbrev pub IsSound : List Act → Type 0
  IsSound [] = Unit {0}
  IsSound (made p u ∷ acts) = IsSound acts
  IsSound (lost ∷ acts) = IsSound acts
  IsSound (set_node path text ∷ acts) =
      ((url : Text) × (cpu : F) × (total used online : ℕ) × IsFresh path url acts
        × (text ≡ on_write_zk_data F zero_f format_f create url cpu total used online))
      × IsSound acts

  abbrev IsKept : Reporter F zero_f format_f create → Type 0
  IsKept r = IsSound r.acts × All (IsMade r.acts) r.comet_path

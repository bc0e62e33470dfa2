-- ===== src/Comet/Report.antt =====
-- comet/zk.go: `onConnStatus` and the loop of `ReportUsage`, which registers the comet's addresses in zookeeper and
-- writes its load to their nodes every second.
pub mod Fresh
mod Tests
use slot_golang.Base.{
  ℕ, suc, ◌+◌, ◌-◌, ◌%◌, ◌^◌, Bool, true, false, List, [], ◌∷◌, ◌++◌, Option, none, some,
  if◌then◌else◌,
}
use slot_golang.Base.Format.{format_uint, join}
use slot_golang.Base.Maps.{string_eq, insert}
use slot_golang.Rates.{sub_u64}

abbrev pub Text : Type 0
Text = List ℕ

-- The states of a session event; any other event is `other`.
pub data ConnState : Type 0 where
  has_session disconnected expired other : ConnState

-- What the loop does at zookeeper, and the losses of the connection that it is told of.
pub data Act : Type 0 where
  made : Text → Text → Act
  set_node : Text → Text → Act
  lost : Act

-- What happens: an event of the connection; the loop takes an event, at which the comet has these addresses; a
-- sample of the processor or an error; a tick, with the total and the free memory or an error, and with the
-- number of connections.
pub data Input (F : Type 0) : Type 0 where
  conn_event : ConnState → Input F
  take_event : List Text → Input F
  cpu_sample : Option F → Input F
  tick : Option (ℕ × ℕ) → ℕ → Input F

-- A floating-point number is of any type F, with its zero and its text for `%f`. `create i data` is the path of the
-- node that the i-th call of `Create` makes, if it makes one.
module _ (F : Type 0) (zero_f : F) (format_f : F → Text) (create : ℕ → Text → Option Text) where
  -- `comet_path` maps the path of a node to its address; the latest act comes first.
  pub record Reporter : Type 0 where
    pub conn_ok : Bool
    pub events : List ConnState
    pub comet_path : List (Text × Text)
    pub cpu_usage : F
    pub calls : ℕ
    pub acts : List Act

  abbrev pub new_reporter : Reporter
  new_reporter = record {
    conn_ok = false;
    events = [];
    comet_path = [];
    cpu_usage = zero_f;
    calls = 0;
    acts = [];
  }

  -- `onWriteZkData`
  unfoldable pub on_write_zk_data : Text → F → ℕ → ℕ → ℕ → Text
  on_write_zk_data url cpu mem_total mem_usage online =
      join b',' (
        url
        ∷ format_f cpu
        ∷ format_uint mem_total
        ∷ format_uint mem_usage
        ∷ format_uint online
        ∷ [])

  abbrev pub status_after : ConnState → Bool → Bool
  status_after has_session ok = true
  status_after disconnected ok = false
  status_after expired ok = false
  status_after other ok = ok

  -- `onConnStatus`; the event waits in the channel until the loop takes it.
  abbrev pub on_conn_status : ConnState → Reporter → Reporter
  on_conn_status s r = record r {
    conn_ok = status_after s r.conn_ok;
    events = r.events ++ (s ∷ []);
  }

  abbrev pub called : Reporter → Reporter
  called r = record r { calls = suc r.calls }

  -- Behind one call of `Create`; `next` is what follows it when it made a node.
  abbrev pub created : Text → (Reporter → Reporter) → Option Text → Reporter → Reporter
  created url next none r = called r
  created url next (some []) r = called r
  created url next (some (c ∷ path)) r = next (record (called r) {
    comet_path = insert (c ∷ path) url r.comet_path;
    acts = made (c ∷ path) url ∷ r.acts;
  })

  -- The loop over the addresses, which ends at the first that cannot be registered.
  unfoldable pub register : List Text → Reporter → Reporter
  unfolding on_write_zk_data
  register [] r = r
  register (u ∷ urls) r =
      created u (register urls) (create r.calls (on_write_zk_data u zero_f 0 0 0)) r

  abbrev pub forget : Reporter → Reporter
  forget r = record r { comet_path = []; acts = lost ∷ r.acts }

  abbrev pub handle_state : List Text → ConnState → Reporter → Reporter
  handle_state urls has_session r = if r.conn_ok then register urls r else r
  handle_state urls disconnected r = forget r
  handle_state urls expired r = forget r
  handle_state urls other r = r

  abbrev pub take_first : List Text → List ConnState → Reporter → Reporter
  take_first urls [] r = r
  take_first urls (s ∷ rest) r = handle_state urls s (record r { events = rest })

  abbrev pub cpu_of : Option F → F
  cpu_of none = zero_f
  cpu_of (some cpu) = cpu

  abbrev pub mem_of : Option (ℕ × ℕ) → ℕ × ℕ
  mem_of none = (0, 0)
  mem_of (some (total, free)) = (total, sub_u64 total free)

  -- The writes of a tick.
  unfoldable pub write_nodes : List (Text × Text) → ℕ × ℕ → ℕ → Reporter → Reporter
  unfolding on_write_zk_data
  write_nodes [] mem online r = r
  write_nodes ((path, url) ∷ nodes) mem online r =
      let data_text = on_write_zk_data url r.cpu_usage mem.0 mem.1 online in
      write_nodes nodes mem online
        (if r.conn_ok then record r { acts = set_node path data_text ∷ r.acts } else r)

  -- `onConnStatus`, or one round of `ReportUsage`.
  unfoldable pub step : Input F → Reporter → Reporter
  unfolding register write_nodes
  step (conn_event s) r = on_conn_status s r
  step (take_event urls) r = take_first urls r.events r
  step (cpu_sample cpu) r = record r { cpu_usage = cpu_of cpu }
  step (tick mem online) r = write_nodes r.comet_path (mem_of mem) online r

  unfoldable pub run : List (Input F) → Reporter → Reporter
  unfolding step
  run [] r = r
  run (i ∷ inputs) r = run inputs (step i r)

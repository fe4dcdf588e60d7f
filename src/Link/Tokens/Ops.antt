-- ===== src/Link/Tokens/Ops.antt =====
-- spray_ack_tokens.hpp and .cpp. The state file is the number in it and whether "v2 " stands before it;
-- what the operating system makes of a write is an argument of the call.
use dyx_3wd.Base.{
  ℕ, ◌+◌, ◌-◌, ◌*◌, ◌/◌, ◌%◌, Bool, true, false, not, ◌||◌, Option, none, some, ◌==◌, ltb,
  if◌then◌else◌,
}

-- What `load` reads: no file or no number, a number of the old form, or one of the new.
pub data StateFile : Type 0 where
  unreadable : StateFile
  versioned unversioned : ℕ → StateFile

-- How a write ends: nothing changed, the file was replaced but not known to be durable, or all done.
pub data Write : Type 0 where
  unchanged replaced durable : Write

pub record Identity : Type 0 where
  pub system : ℕ
  pub component : ℕ

pub record SprayAckTokens : Type 0 where
  pub failed : Bool
  pub next : ℕ
  pub reserved : ℕ
  pub persists : ℕ

abbrev pub first_component : ℕ
first_component = 2

abbrev pub last_component : ℕ
last_component = 999

abbrev pub capacity : ℕ
capacity = 255 * (last_component - first_component + 1)

abbrev pub block : ℕ
block = 64

-- The number of `load`, if the file is accepted.
unfoldable pub load : StateFile → Option ℕ
load unreadable = none
load (versioned value) = if ltb capacity value then none else some value
load (unversioned value) =
    if ltb value first_component || ltb (last_component + 1) value
    then none
    else if ltb capacity (value - first_component)
    then none
    else some (value - first_component)

-- The constructor, with a path that is not empty.
unfoldable pub open_tokens : StateFile → SprayAckTokens
unfolding load
open_tokens file = elim (load file) [
  | none ↦ record { failed = true; next = 0; reserved = 0; persists = 0 }
  | some value ↦ record { failed = false; next = value; reserved = value; persists = 0 }
]

-- The file after a write of `n`, and whether `persist` reports success.
abbrev pub persist : StateFile → ℕ → Write → StateFile × Bool
persist file n unchanged = (file, false)
persist file n replaced = (versioned n, false)
persist file n durable = (versioned n, true)

abbrev pub identity : ℕ → Identity
identity index =
    let span = last_component - first_component + 1 in
    record {
      system = (index / span + 1) % 256;
      component = (index % span + first_component) % 65536;
    }

abbrev pub block_end : ℕ → ℕ
block_end next = if ltb (capacity - next) block then capacity else next + block

-- The process and its file.
pub record Ledger : Type 0 where
  pub file : StateFile
  pub tokens : SprayAckTokens

-- The end of `reserve`: the next index is handed out.
abbrev pub hand_out : Ledger → Ledger × Option ℕ
hand_out l =
    let index = l.tokens.next in
    (record l { tokens = record l.tokens { next = index + 1 } }, some index)

unfoldable pub reserve : Ledger → Write → Ledger × Option ℕ
reserve l w =
    let t = l.tokens in
    let mark = block_end t.next in
    let (file, written) = persist l.file mark w in
    let tried = record t { persists = t.persists + 1 } in
    if t.failed
    then (l, none)
    else if t.next == capacity
    then (l, none)
    else if not (t.next == t.reserved)
    then hand_out l
    else if not written
    then (record { file = file; tokens = record tried { failed = true } }, none)
    else hand_out (record { file = file; tokens = record tried { reserved = mark } })

unfoldable pub remaining : SprayAckTokens → ℕ
remaining t = if t.failed then 0 else capacity - t.next

unfoldable pub exhausted : SprayAckTokens → Bool
exhausted t = t.failed || t.next == capacity

-- What happens to the ledger: a reservation, or a restart of the process, which reads the file again.
pub data Event : Type 0 where
  reserves : Write → Event
  restarts : Event

unfoldable pub step : Ledger → Event → Ledger × Option ℕ
unfolding reserve open_tokens
step l (reserves w) = reserve l w
step l restarts = (record l { tokens = open_tokens l.file }, none)

unfoldable pub fresh : StateFile → Ledger
unfolding open_tokens
fresh file = record { file = file; tokens = open_tokens file }

-- ===== src/Session/Registry.antt =====
-- The call registry of call.go. A Go map is an association list with distinct keys, whose order
-- stands for the map's own. A media task is known by a number; calling its cancel handle is the
-- operation's list of cancelled tasks. The mutex makes each operation one step.
pub mod Tasks
pub mod Lookup
mod Tests
use meowcaller.Base.{
  ℕ, Bool, true, false, Option, none, some, List, [], ◌∷◌, ◌++◌, if◌then◌else◌, length, bytes_equal,
  Bytes,
}
use meowcaller.Session.Phase.{CallPhase, idle, CallSession, transition_to}

-- `callEntry`; `media_task` is nil until a task is registered.
pub record CallEntry : Type 0 where
  pub session : CallSession
  pub media_task : Option ℕ

-- `CallRegistry`
abbrev pub CallRegistry : Type 0
CallRegistry = List (Bytes × CallEntry)

-- `NewCallRegistry`
abbrev pub new_call_registry : CallRegistry
new_call_registry = []

-- The map operations.
unfoldable pub lookup : Bytes → CallRegistry → Option CallEntry
lookup k [] = none
lookup k ((j, e) ∷ r) = if bytes_equal j k then some e else lookup k r

unfoldable pub update : Bytes → CallEntry → CallRegistry → CallRegistry
update k e [] = []
update k e ((j, f) ∷ r) = if bytes_equal j k then (j, e) ∷ r else (j, f) ∷ update k e r

unfoldable pub delete : Bytes → CallRegistry → CallRegistry
delete k [] = []
delete k ((j, f) ∷ r) = if bytes_equal j k then r else (j, f) ∷ delete k r

-- `Insert`
unfoldable pub insert : CallRegistry → CallSession → CallRegistry × Bool
insert r session = elim (lookup session.call_id r) [
  | some _ ↦ (r, false)
  | none ↦ ((session.call_id, record { session = session; media_task = none }) ∷ r, true)
]

abbrev pub cancel_old : Option ℕ → List ℕ
cancel_old none = []
cancel_old (some task) = task ∷ []

-- `SetMediaTask`: the new registry, and the tasks that it cancels.
unfoldable pub set_media_task : CallRegistry → Bytes → ℕ → CallRegistry × List ℕ
set_media_task r call_id task = elim (lookup call_id r) [
  | none ↦ (r, task ∷ [])
  | some e ↦ (update call_id (record e { media_task = some task }) r, cancel_old e.media_task)
]

-- `Phase`
unfoldable pub phase : CallRegistry → Bytes → CallPhase × Bool
phase r call_id = elim (lookup call_id r) [
  | some e ↦ (e.session.phase, true)
  | none ↦ (idle, false)
]

-- `Transition`
unfoldable pub transition : CallRegistry → Bytes → CallPhase → CallRegistry × Bool
transition r call_id next = elim (lookup call_id r) [
  | none ↦ (r, false)
  | some e ↦
      let (session, ok) = transition_to e.session next in
      (update call_id (record e { session = session }) r, ok)
]

-- `Snapshot`
unfoldable pub snapshot : CallRegistry → Bytes → Option CallSession
snapshot r call_id = elim (lookup call_id r) [ some e ↦ some e.session | none ↦ none ]

-- `ActiveCount`
unfoldable pub active_count : CallRegistry → ℕ
active_count r = length r

-- `Remove`
unfoldable pub remove : CallRegistry → Bytes → CallRegistry × Bool × List ℕ
remove r call_id = elim (lookup call_id r) [
  | none ↦ (r, false, [])
  | some e ↦ (delete call_id r, true, cancel_old e.media_task)
]

-- The tasks that the registry holds.
unfoldable pub held : CallRegistry → List ℕ
held [] = []
held ((k, e) ∷ r) = cancel_old e.media_task ++ held r

-- `AbortAll`: the loop over the entries cancels each task that is there.
unfoldable pub abort_all : CallRegistry → CallRegistry × ℕ × List ℕ
abort_all r = ([], length r, held r)

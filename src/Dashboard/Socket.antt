-- ===== src/Dashboard/Socket.antt =====
-- The loop of `handleLiveTail` of backend/internal/dashboard/websocket.go: the payloads of the live tail
-- are gathered and written to the websocket as one frame at each tick.
pub mod Frames
use logarithm.Prelude.{
  String, Bool, true, false, Option, none, some, List, [], ◌∷◌, ◌++◌, ◌==◌, if◌then◌else◌, length,
  Bytes,
}

-- The batch, and the frames that the client has got, the first one first.
pub record Socket : Type 0 where
  pub batch : Bytes
  pub frames : List Bytes

abbrev pub opened_socket : Socket
opened_socket = record { batch = []; frames = [] }

unfoldable pub on_payload : Bytes → Socket → Socket
on_payload payload s = record s { batch = s.batch ++ payload }

-- A tick, with the error of the write if there is one; with whether the loop goes on.
unfoldable pub on_tick : Option String → Socket → Socket × Bool
on_tick failure s = if length s.batch == 0 then (s, true) else elim failure [
  | some e ↦ (s, false)
  | none ↦ (record { batch = []; frames = s.frames ++ s.batch ∷ [] }, true)
]

-- The states that the loop comes to, with what it has received, written by `enc`, and whether it goes
-- on: its `select` takes any case that is ready.
pub data Tailing {ℓ} {A : Type ℓ} (enc : A → Bytes) : List A → Socket → Bool → Type ℓ where
  opened : Tailing enc [] opened_socket true
  payload :
      {as_ : List A} {s : Socket} (a : A)
      → Tailing enc as_ s true
      → Tailing enc (as_ ++ a ∷ []) (on_payload (enc a) s) true
  tick :
      {as_ : List A} {s : Socket} (failure : Option String)
      → Tailing enc as_ s true
      → Tailing enc as_ (on_tick failure s).0 (on_tick failure s).1
  -- The client is gone, or the channel is closed.
  stopped : {as_ : List A} {s : Socket} → Tailing enc as_ s true → Tailing enc as_ s false

-- ===== src/Voice/RealtimeSessions.antt =====
-- realtimeSessions.js: sockets that are opened before the media stream of a call arrives. The map
-- `pending` is a list of entries in the order of their insertion; a socket is a number, given when
-- it is opened. The handlers of an entry are on its socket exactly while the entry is in the map, so
-- an event of a socket looks for its entry there; only `onOpen` stays. What `new WebSocket` and
-- `send` come to are arguments, and so are the time and the state of a socket.
pub mod Sockets
pub mod Tests
pub mod Parties
use communications_service.Prelude.{
  ℕ, suc, ◌+◌, ◌-◌, String, Bool, true, false, not, ◌&&◌, ◌||◌, Option, none, some, List, [], ◌∷◌,
  ◌++◌, map, find, any, eqb, ltb, if◌then◌else◌,
}
use communications_service.Prelude.Text.{same, filled}

pub data ReadyState : Type 0 where
  connecting connected closing closed : ReadyState

pub record Entry : Type 0 where
  pub call_sid : String
  pub ws : ℕ
  pub buffered : List ℕ
  pub opened_at : ℕ
  pub ready_at : Option ℕ

-- `opened` sockets so far; those that were handed over and those that were torn down.
pub record State : Type 0 where
  pub pending : List Entry
  pub opened : ℕ
  pub handed : List ℕ
  pub torn_down : List ℕ
  pub configured : List ℕ

-- What `claim` hands over.
pub record Claimed : Type 0 where
  pub ws : ℕ
  pub buffered : List ℕ
  pub is_open : Bool
  pub ready_for_ms : ℕ
  pub started_ms_ago : ℕ

abbrev pub of_call : String → Entry → Bool
of_call sid entry = same entry.call_sid sid

abbrev pub of_socket : ℕ → Entry → Bool
of_socket ws entry = eqb entry.ws ws

-- `pending.delete(…)`
unfoldable pub delete : (Entry → Bool) → List Entry → List Entry
delete p [] = []
delete p (e ∷ es) = if p e then es else e ∷ delete p es

-- `discard`
unfoldable pub discard : (Entry → Bool) → State → State
unfolding delete
discard p s = elim (find p s.pending) [
  | none ↦ s
  | some e ↦ record s { pending = delete p s.pending; torn_down = e.ws ∷ s.torn_down }
]

-- The entry of a new socket.
unfoldable pub opened_entry : (call_sid : String) → (now ws : ℕ) → Entry
opened_entry sid now ws = record {
  call_sid = sid;
  ws = ws;
  buffered = [];
  opened_at = now;
  ready_at = none;
}

-- `preconnect`
unfoldable pub preconnect :
    (enabled connects : Bool) → (call_sid : String) → (now : ℕ) → State → State
unfolding opened_entry
preconnect enabled connects sid now s =
    if not enabled || not (filled sid) || any (of_call sid) s.pending || not connects
    then s
    else record s {
      pending = s.pending ++ (opened_entry sid now s.opened ∷ []);
      opened = suc s.opened;
    }

-- An update of the entry of a socket.
unfoldable pub change : (ws : ℕ) → (Entry → Entry) → List Entry → List Entry
change ws f [] = []
change ws f (e ∷ es) = (if of_socket ws e then f e else e) ∷ change ws f es

-- `onOpen`, claimed or not.
unfoldable pub on_open : (sends : Bool) → (now ws : ℕ) → State → State
unfolding change
on_open sends now ws s = if not sends then s else record s {
  configured = s.configured ++ (ws ∷ []);
  pending = change ws (λ e. record e { ready_at = some now }) s.pending;
}

-- `onMessage`
unfoldable pub on_message : (ws message : ℕ) → State → State
unfolding change
on_message ws message s = record s {
  pending = change ws (λ e. record e { buffered = e.buffered ++ (message ∷ []) }) s.pending;
}

unfoldable pub is_gone : ReadyState → Bool
is_gone closing = true
is_gone closed = true
is_gone _ = false

unfoldable pub is_open : ReadyState → Bool
is_open connected = true
is_open _ = false

unfoldable pub claimed_entry : ReadyState → (now : ℕ) → Entry → Claimed
unfolding is_open
claimed_entry state now e = record {
  ws = e.ws;
  buffered = e.buffered;
  is_open = is_open state;
  ready_for_ms = elim e.ready_at [ none ↦ 0 | some t ↦ now - t ];
  started_ms_ago = now - e.opened_at;
}

-- `claim`
unfoldable pub claim : (call_sid : String) → ReadyState → (now : ℕ) → State → State × Option Claimed
unfolding delete is_gone claimed_entry
claim sid state now s =
    if not (filled sid) then (s, none) else elim (find (of_call sid) s.pending) [
      | none ↦ (s, none)
      | some e ↦
          let rest = delete (of_call sid) s.pending in
          if is_gone state
          then (record s { pending = rest; torn_down = e.ws ∷ s.torn_down }, none)
          else (
            record s { pending = rest; handed = e.ws ∷ s.handed },
            some (claimed_entry state now e),
          )
    ]

-- UNCLAIMED_TTL_MS
abbrev unclaimed_ttl_ms : ℕ
unclaimed_ttl_ms = 60000

unfoldable pub is_unclaimed : (now : ℕ) → Entry → Bool
is_unclaimed now e = ltb (e.opened_at + unclaimed_ttl_ms) now

-- The loop of the sweeper over the entries that are there when it starts.
unfoldable pub sweep_from : (now : ℕ) → List Entry → State → State
unfolding discard is_unclaimed
sweep_from now [] s = s
sweep_from now (e ∷ es) s =
    let after = if is_unclaimed now e then discard (of_call e.call_sid) s else s in
    sweep_from now es after

pub data Event : Type 0 where
  webhook : (enabled connects : Bool) → (call_sid : String) → (now : ℕ) → Event
  opens : (sends : Bool) → (now ws : ℕ) → Event
  receives : (ws message : ℕ) → Event
  fails : (ws : ℕ) → Event
  claims : (call_sid : String) → ReadyState → (now : ℕ) → Event
  sweeps : (now : ℕ) → Event

unfoldable pub step : State → Event → State
unfolding preconnect on_open on_message discard claim sweep_from
step s (webhook enabled connects sid now) = preconnect enabled connects sid now s
step s (opens sends now ws) = on_open sends now ws s
step s (receives ws message) = on_message ws message s
step s (fails ws) = discard (of_socket ws) s
step s (claims sid state now) = (claim sid state now s).0
step s (sweeps now) = sweep_from now s.pending s

unfoldable pub run : State → List Event → State
unfolding step
run s [] = s
run s (e ∷ es) = run (step s e) es

abbrev pub initial : State
initial = record { pending = []; opened = 0; handed = []; torn_down = []; configured = [] }

-- ===== src/Voice/RealtimeSessions/Sockets.antt =====
-- realtimeSessions.js: where each socket is.
use communications_service.Prelude.{
  ℕ, ◌+◌, String, Bool, some, List, [], ◌∷◌, ◌++◌, ◌≡◌, refl, ◌∙◌, arith, find, eqb, ltb,
  if◌then◌else◌, Option-cases, inl, inr, if-both,
}
use communications_service.Voice.RealtimeSessions.{
  Entry, State, Event, webhook, opens, receives, fails, claims, sweeps, ReadyState, of_call,
  of_socket, delete, discard, opened_entry, preconnect, change, on_open, on_message, claim,
  is_unclaimed, sweep_from, step, run, initial,
}

one : (ws : ℕ) → (other : ℕ) → ℕ
one ws other = if eqb other ws then 1 else 0

count : (ws : ℕ) → List ℕ → ℕ
unfolding one
count ws [] = 0
count ws (x ∷ xs) = one ws x + count ws xs

-- How many entries wait with the socket.
waiting : (ws : ℕ) → List Entry → ℕ
unfolding one
waiting ws [] = 0
waiting ws (e ∷ es) = one ws e.ws + waiting ws es

-- In how many places the socket is.
unfoldable pub places : (ws : ℕ) → State → ℕ
unfolding waiting count
places ws s = waiting ws s.pending + count ws s.handed + count ws s.torn_down

waiting-append :
    (ws : ℕ) (es : List Entry) (e : Entry)
    → waiting ws (es ++ (e ∷ [])) ≡ waiting ws es + one ws e.ws
unfolding waiting
waiting-append ws [] e = omega arith
waiting-append ws (f ∷ es) e = omega (arith, waiting-append ws es e)

waiting-delete :
    (ws : ℕ) (p : Entry → Bool) (es : List Entry) (e : Entry)
    → find p es ≡ some e
    → waiting ws (delete p es) + one ws e.ws ≡ waiting ws es
unfolding waiting delete find
waiting-delete ws p [] e h = cc
waiting-delete ws p (f ∷ es) e h = let ih = waiting-delete ws p es e in ground (arith, ih)

waiting-change :
    (ws other : ℕ) (f : Entry → Entry) (es : List Entry)
    → ((e : Entry) → (f e).ws ≡ e.ws)
    → waiting ws (change other f es) ≡ waiting ws es
unfolding waiting change
waiting-change ws other f [] same = refl
waiting-change ws other f (e ∷ es) same =
    let ih = waiting-change ws other f es same in let s = same e in ground (arith, ih, s)

-- The socket is where it was, and none was opened.
abbrev Stays : ℕ → State → State → Type 0
Stays ws s after = (places ws after ≡ places ws s) × (after.opened ≡ s.opened)

discard-Stays : (ws : ℕ) (p : Entry → Bool) (s : State) → Stays ws s (discard p s)
unfolding discard places count
discard-Stays ws p s = elim (Option-cases (find p s.pending)) [
  | inl e ↦ ground arith
  | inr (found, e) ↦ let h = waiting-delete ws p s.pending found e in ground (arith, h)
]

claim-Stays :
    (ws : ℕ) (sid : String) (state : ReadyState) (now : ℕ) (s : State)
    → Stays ws s (claim sid state now s).0
unfolding claim places count
claim-Stays ws sid state now s = elim (Option-cases (find (of_call sid) s.pending)) [
  | inl e ↦ ground arith
  | inr (found, e) ↦ let h = waiting-delete ws (of_call sid) s.pending found e in ground (arith, h)
]

sweep-Stays : (ws now : ℕ) (es : List Entry) (s : State) → Stays ws s (sweep_from now es s)
unfolding sweep_from
sweep-Stays ws now [] s = (refl, refl)
sweep-Stays ws now (e ∷ es) s =
    let d =
      if-both (Stays ws s) (is_unclaimed now e) (discard (of_call e.call_sid) s) s
        (λ t. discard-Stays ws (of_call e.call_sid) s) (λ t. (refl, refl)) in
    let ih =
      sweep-Stays ws now es (if is_unclaimed now e then discard (of_call e.call_sid) s else s) in
    (ih.0 ∙ d.0, ih.1 ∙ d.1)

on_open-Stays :
    (ws : ℕ) (sends : Bool) (now other : ℕ) (s : State) → Stays ws s (on_open sends now other s)
unfolding on_open places
on_open-Stays ws sends now other s =
    let h = waiting-change ws other (λ e. record e { ready_at = some now }) s.pending (λ e. refl) in
    ground (arith, h)

on_message-Stays : (ws other message : ℕ) (s : State) → Stays ws s (on_message other message s)
unfolding on_message places
on_message-Stays ws other message s =
    let h =
      waiting-change ws other (λ e. record e { buffered = e.buffered ++ (message ∷ []) }) s.pending
        (λ e. refl) in
    ground (arith, h)

-- The number of places in which a socket should be.
abbrev pub due : (ws : ℕ) → State → ℕ
due ws s = if ltb ws s.opened then 1 else 0

preconnect-places :
    (ws : ℕ) (enabled connects : Bool) (sid : String) (now : ℕ) (s : State)
    → places ws s ≡ due ws s
    → places ws (preconnect enabled connects sid now s)
      ≡ due ws (preconnect enabled connects sid now s)
unfolding preconnect places opened_entry one
preconnect-places ws enabled connects sid now s h =
    let k = waiting-append ws s.pending (opened_entry sid now s.opened) in ground (arith, k)

stay-places :
    (ws : ℕ) (s after : State)
    → Stays ws s after
    → places ws s ≡ due ws s
    → places ws after ≡ due ws after
stay-places ws s after stays h = ground arith

step-places :
    (ws : ℕ) (s : State) (e : Event)
    → places ws s ≡ due ws s
    → places ws (step s e) ≡ due ws (step s e)
unfolding step
step-places ws s (webhook enabled connects sid now) h =
    preconnect-places ws enabled connects sid now s h
step-places ws s (opens sends now other) h =
    stay-places ws s _ (on_open-Stays ws sends now other s) h
step-places ws s (receives other message) h =
    stay-places ws s _ (on_message-Stays ws other message s) h
step-places ws s (fails other) h = stay-places ws s _ (discard-Stays ws (of_socket other) s) h
step-places ws s (claims sid state now) h = stay-places ws s _ (claim-Stays ws sid state now s) h
step-places ws s (sweeps now) h = stay-places ws s _ (sweep-Stays ws now s.pending s) h

run-from :
    (ws : ℕ) (s : State) (es : List Event)
    → places ws s ≡ due ws s
    → places ws (run s es) ≡ due ws (run s es)
unfolding run
run-from ws s [] h = h
run-from ws s (e ∷ es) h = run-from ws (step s e) es (step-places ws s e h)

initial-places : (ws : ℕ) → places ws initial ≡ due ws initial
unfolding places waiting count
initial-places ws = ground arith

-- Whatever webhooks, events of sockets, media streams and sweeps come, and in whatever order: a socket
-- that was opened either waits for its media stream, or was handed to exactly one, or was torn down,
-- and once only; no other socket is handed over, torn down or waits.
pub run-places : (ws : ℕ) (es : List Event) → places ws (run initial es) ≡ due ws (run initial es)
run-places ws es = run-from ws initial es (initial-places ws)

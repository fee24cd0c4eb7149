-- ===== src/Voice/RealtimeSessions/Tests.antt =====
-- realtimeSessions.js: a call whose socket is claimed while it connects, and one that never comes.
use communications_service.Prelude.{
  String, true, some, List, [], ◌∷◌, ◌≡◌, ◌≢◌, refl, arith, eq_iff, find, any,
}
use communications_service.Voice.RealtimeSessions.{
  Event, webhook, opens, receives, fails, claims, sweeps, connecting, run, initial,
}
use communications_service.Voice.RealtimeSessions.Sockets.{places, due, run-places}
use communications_service.Voice.RealtimeSessions.Parties

abbrev calls : List Event
calls =
    webhook true true "CA1" 1000
    ∷ webhook true true "CA1" 1010
    ∷ webhook true true "CA2" 1020
    ∷ receives 0 7
    ∷ claims "CA1" connecting 1030
    ∷ opens true 1400 0
    ∷ fails 0
    ∷ sweeps 70000
    ∷ claims "CA1" connecting 70001
    ∷ []

handed_once : (run initial calls).handed ≡ 0 ∷ []
unfolding run find any
handed_once = refl

swept : (run initial calls).torn_down ≡ 1 ∷ []
unfolding run find any
swept = refl

run-places_example : places 0 (run initial calls) ≡ due 0 (run initial calls)
run-places_example = run-places 0 calls

abbrev nobody : Parties.State
nobody = record { parties = []; lookups = [] }

abbrev ca2 : String
ca2 = "CA2"

other_call : ca2 ≢ "CA1"
other_call e = let k = (eq_iff "CA2" "CA1").1 e in cc

party_for-run_example :
    Parties.party_for "CA1" (
      Parties.run
        (Parties.note_party "CA1" "+61400000000" 1000 nobody)
        (Parties.notes "CA2" "+61411111111" 2000 ∷ Parties.sweeps 14000000 ∷ []))
    ≡ some "+61400000000"
party_for-run_example =
    Parties.party_for-run "CA1" "+61400000000" 1000 nobody
      (Parties.notes "CA2" "+61411111111" 2000 ∷ Parties.sweeps 14000000 ∷ []) refl refl
      (other_call, (omega arith, tt))

-- ===== src/Voice/VoiceTurns/Reports.antt =====
-- voiceTurns.js: the responses that a run of events reports done.
use communications_service.Prelude.{
  ℕ, suc, ◌+◌, ◌⊎◌, if◌then◌else◌, not, ◌||◌, Bool-cases, String, Bool, true, false, ◌&&◌, ◌≡◌,
  refl, Option, none, some, List, [], ◌∷◌, ◌++◌, inl, inr, arith, Option-cases,
}
use communications_service.Prelude.Text.{includes, filled}
use communications_service.Voice.VoiceTurns.Messages.{Call, Response, completed, calls_of}
use communications_service.Voice.VoiceTurns.{
  Event, caller_interrupts, speech_stops, response_starts, response_ends, tool_answers, tool_throws,
}

abbrev pub count : Bool → ℕ
count true = 1
count false = 0

abbrev pub called : List Call → Bool
called [] = false
called (c ∷ cs) = true

-- A completed response that calls a tool.
abbrev pub is_tool_response : Event → Bool
is_tool_response (response_ends r) = completed r && called (calls_of r.output)
is_tool_response caller_interrupts = false
is_tool_response speech_stops = false
is_tool_response (response_starts id) = false
is_tool_response (tool_answers i result) = false
is_tool_response (tool_throws i) = false

-- The response's id, if it has one that is not among these.
unfoldable pub new_id : (told : List String) → Response → Option String
new_id told r = elim r.id [
  | none ↦ none
  | some id ↦ if filled id && not (includes told id) then some id else none
]

-- The different responses that are reported completed and that call tools: a response whose id was
-- reported before does not count again. `told` are the ids reported before.
abbrev pub tool_responses : (told : List String) → List Event → ℕ
tool_responses told [] = 0
tool_responses told (response_ends r ∷ es) = elim (new_id told r) [
  | none ↦ tool_responses told es
  | some id ↦ count (is_tool_response (response_ends r)) + tool_responses (id ∷ told) es
]
tool_responses told (caller_interrupts ∷ es) = tool_responses told es
tool_responses told (speech_stops ∷ es) = tool_responses told es
tool_responses told (response_starts id ∷ es) = tool_responses told es
tool_responses told (tool_answers i result ∷ es) = tool_responses told es
tool_responses told (tool_throws i ∷ es) = tool_responses told es

-- How many reports of a response that is done there are, repeated ones included.
abbrev pub reports : List Event → ℕ
reports [] = 0
reports (response_ends r ∷ es) = suc (reports es)
reports (caller_interrupts ∷ es) = reports es
reports (speech_stops ∷ es) = reports es
reports (response_starts id ∷ es) = reports es
reports (tool_answers i result ∷ es) = reports es
reports (tool_throws i ∷ es) = reports es

pub new_id-cases :
    (told : List String) (r : Response)
    → ((new_id told r ≡ none)
        × ((r.id ≡ none)
            ⊎ ((id : String) × (r.id ≡ some id) × ((not (filled id) || includes told id) ≡ true))))
      ⊎ ((id : String) × (new_id told r ≡ some id)
          × (r.id ≡ some id)
          × (filled id ≡ true)
          × (includes told id ≡ false))
unfolding new_id
new_id-cases told r = elim (Option-cases r.id) [
  | inl e ↦ inl (rw e, inl e)
  | inr (id, e) ↦ elim (Bool-cases (filled id && not (includes told id))) [
    | inl y ↦ inr (id, rw (e, y), e, ground arith, ground arith)
    | inr n ↦ inl (rw (e, n), inr (id, e, ground arith))
  ]
]

-- The machine remembers exactly the ids that were reported.
abbrev pub Remembers : List String → List String → Type 0
Remembers seen told = (x : String) → includes seen x ≡ includes told x

includes-append :
    (xs : List String) (y x : String) → includes (xs ++ y ∷ []) x ≡ includes (y ∷ xs) x
unfolding includes
includes-append [] y x = refl
includes-append (z ∷ xs) y x = ground (arith, includes-append xs y x)

pub Remembers-append :
    (seen told : List String) (id : String)
    → Remembers seen told
    → Remembers (seen ++ id ∷ []) (id ∷ told)
unfolding includes
Remembers-append seen told id h = λ x. ground (arith, includes-append seen id x, h x)

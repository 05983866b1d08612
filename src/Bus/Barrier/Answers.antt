-- ===== src/Bus/Barrier/Answers.antt =====
-- What a wait of core/bus/barrier.py reports of the responses that came.
use octopush.Prelude.{
  ℕ, String, ◌≡◌, refl, sym, ap, ◌∙◌, subst, Bool, true, false, not, ◌&&◌, Option, none, some, List,
  [], ◌∷◌, contains, str_eq, eq_iff, eq_refl, arith, inl, inr, Bool-cases, Option-cases, All,
  if◌then◌else◌,
}
use octopush.Prelude.Dict.{
  lookup, insert, IsDict, lookup-insert, lookup-insert_self, lookup-erase, lookup-erase_ne,
  insert-IsDict, erase-IsDict,
}
use octopush.Dedupe.{add}
use octopush.Dedupe.Horizon.{contains-append}
use octopush.Bus.Barrier.{
  Pending, ResponseBarrier, covers, note_response, expect, note, forget, end_wait,
}

pub data Call : Type 0 where
  expects : String → List String → Call
  responses : String → String → Call
  forgets : String → Call

unfoldable pub run : List Call → ResponseBarrier → ResponseBarrier
run [] b = b
run (expects id required ∷ calls) b = run calls (expect id required b)
run (responses id agent ∷ calls) b = run calls (note id agent b)
run (forgets id ∷ calls) b = run calls (forget id b)

-- Nobody else expects or forgets the correlation id.
abbrev pub LeavesAlone : String → Call → Type 0
LeavesAlone id (expects j required) = str_eq j id ≡ false
LeavesAlone id (responses j agent) = Unit
LeavesAlone id (forgets j) = str_eq j id ≡ false

-- The agents that answer a request in some calls, each once, after those that answered before.
abbrev pub answers : String → List Call → List String → List String
answers id [] before = before
answers id (responses j agent ∷ calls) before =
    answers id calls (if str_eq j id then add agent before else before)
answers id (expects j required ∷ calls) before = answers id calls before
answers id (forgets j ∷ calls) before = answers id calls before

contains-add :
    (a b : String) (xs : List String) → contains a xs ≡ true → contains a (add b xs) ≡ true
contains-add a b xs h = ground (arith, contains-append a xs (b ∷ []))

covers-add :
    (b : String) (xs required : List String)
    → covers xs required ≡ true
    → covers (add b xs) required ≡ true
covers-add b xs [] h = refl
covers-add b xs (a ∷ required) h = ground (arith, contains-add a b xs, covers-add b xs required)

-- What is pending for an id: the event is set only when all have answered.
record Holds (id : String) (required answered : List String) (b : ResponseBarrier) : Type 0 where
  pub set : Bool
  pub found :
      lookup id b.pending
      ≡ some (record { required = required; responded = answered; event_is_set = set })
  pub signal : set ≡ true → covers answered required ≡ true
  pub keyed : IsDict b.pending

expect-Holds :
    (id : String) (required : List String) (b : ResponseBarrier)
    → IsDict b.pending
    → Holds id required [] (expect id required b)
unfolding expect
expect-Holds id required b d = record {
  set = false;
  found = lookup-insert_self id _ b.pending;
  signal = λ h. cc;
  keyed = insert-IsDict id _ b.pending d;
}

-- Another id's entry is written, or leaves.
insert-Holds :
    (id j : String) (required answered : List String) (p : Pending) (b : ResponseBarrier)
    → str_eq j id ≡ false
    → Holds id required answered b
    → Holds id required answered (record b { pending = insert j p b.pending })
insert-Holds id j required answered p b apart h = record {
  set = h.set;
  found = lookup-insert j id p b.pending ∙ rw apart h.found;
  signal = h.signal;
  keyed = insert-IsDict j p b.pending h.keyed;
}

erase-Holds :
    (id j : String) (required answered : List String) (b : ResponseBarrier)
    → str_eq j id ≡ false
    → Holds id required answered b
    → Holds id required answered (forget j b)
unfolding forget
erase-Holds id j required answered b apart h = record {
  set = h.set;
  found = lookup-erase_ne j id b.pending apart ∙ h.found;
  signal = h.signal;
  keyed = erase-IsDict j b.pending h.keyed;
}

note-Holds_own :
    (id agent : String) (required answered : List String) (b : ResponseBarrier)
    → Holds id required answered b
    → Holds id required (add agent answered) (note id agent b)
unfolding note note_response
note-Holds_own id agent required answered b h =
    rw (h.found, note)
      (record {
        set = if covers (add agent answered) required then true else h.set;
        found = lookup-insert_self id _ b.pending;
        signal = λ e. ground (arith, covers-add agent answered required, h.signal);
        keyed = insert-IsDict id _ b.pending h.keyed;
      })

note-Holds_other :
    (id j agent : String) (required answered : List String) (b : ResponseBarrier)
    → str_eq j id ≡ false
    → Holds id required answered b
    → Holds id required answered (note j agent b)
unfolding note
note-Holds_other id j agent required answered b apart h = elim (Option-cases (lookup j b.pending)) [
  | inl late ↦
      rw (late, note) (record { set = h.set; found = h.found; signal = h.signal; keyed = h.keyed })
  | inr (p, e) ↦
      rw (e, note) (insert-Holds id j required answered (note_response agent p) b apart h)
]

note-Holds :
    (id j agent : String) (required answered : List String) (b : ResponseBarrier)
    → Holds id required answered b
    → Holds id required (if str_eq j id then add agent answered else answered) (note j agent b)
note-Holds id j agent required answered b h = elim (Bool-cases (str_eq j id)) [
  | inl same ↦ rw same (
      subst (λ k. Holds id required (add agent answered) (note k agent b))
        (sym ((eq_iff j id).0 same)) (note-Holds_own id agent required answered b h))
  | inr apart ↦ rw apart (note-Holds_other id j agent required answered b apart h)
]

run-Holds :
    (id : String) (calls : List Call) (required answered : List String) (b : ResponseBarrier)
    → All (LeavesAlone id) calls
    → Holds id required answered b
    → Holds id required (answers id calls answered) (run calls b)
unfolding run expect
run-Holds id [] required answered b apart h = h
run-Holds id (expects j others ∷ calls) required answered b apart h =
    run-Holds id calls required answered (expect j others b) apart.1
      (insert-Holds id j required answered _ b apart.0 h)
run-Holds id (responses j agent ∷ calls) required answered b apart h =
    run-Holds id calls required _ (note j agent b) apart.1
      (note-Holds id j agent required answered b h)
run-Holds id (forgets j ∷ calls) required answered b apart h =
    run-Holds id calls required answered (forget j b) apart.1
      (erase-Holds id j required answered b apart.0 h)

-- The event of a request is set.
abbrev pub IsSignalled : String → ResponseBarrier → Type 0
IsSignalled id b = (p : Pending) × (lookup id b.pending ≡ some p) × (p.event_is_set ≡ true)

-- A request was expected, and until its wait ends anything is expected, answered and forgotten, but
-- nobody else expects or forgets its id. The result then names the agents that answered it, each
-- once and in order; it is complete exactly when these are all that are required, and it has timed
-- out exactly when they are not, whichever of the signal and the deadline ends the wait, as long as
-- the signal ends it only when the event is set. Nothing is pending for the id any more.
pub end_wait-answers :
    (id : String) (required : List String) (calls : List Call) (signalled : Bool) (started now : ℕ)
    (b : ResponseBarrier)
    → IsDict b.pending
    → All (LeavesAlone id) calls
    → (signalled ≡ true → IsSignalled id (run calls (expect id required b)))
    → let (result, after) = end_wait id signalled started now (run calls (expect id required b)) in
      (result.responded ≡ answers id calls [])
      × (result.required ≡ required)
      × (result.complete ≡ covers (answers id calls []) required)
      × (result.timed_out ≡ not (covers (answers id calls []) required))
      × (lookup id after.pending ≡ none)
unfolding end_wait forget
end_wait-answers id required calls signalled started now b d apart fair =
    rw (h.found, end_wait)
      (refl, refl, refl, late signalled fair, lookup-erase id id _ h.keyed ∙ rw (eq_refl id) refl)
  where
    h : Holds id required (answers id calls []) (run calls (expect id required b))
    h = run-Holds id calls required [] (expect id required b) apart (expect-Holds id required b d)

    set_at : Option Pending → Bool
    set_at none = false
    set_at (some p) = p.event_is_set

    late :
        (s : Bool)
        → (s ≡ true → IsSignalled id (run calls (expect id required b)))
        → (not s && not (covers (answers id calls []) required))
          ≡ not (covers (answers id calls []) required)
    late false fair = refl
    late true fair =
        let (p, e, set) = fair refl in rw (h.signal (sym (ap set_at (sym e ∙ h.found)) ∙ set)) refl

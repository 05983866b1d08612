-- ===== src/Bus/Barrier.antt =====
-- core/bus/barrier.py: which agents have answered a request. The time is an argument where the
-- source asks the clock, and agents are named by text. `wait` is cut where it suspends: what is
-- recorded meanwhile are calls between the cuts, and whether the signal or the deadline came first
-- is an argument.
pub mod Answers
use octopush.Prelude.{
  ℕ, ◌+◌, ◌-◌, String, Bool, true, false, not, ◌&&◌, Option, none, some, List, [], ◌∷◌, contains,
  filterb, length, if◌then◌else◌,
}
use octopush.Prelude.Dict.{Dict, lookup, insert, erase}
use octopush.Dedupe.{add}

pub record BarrierResult : Type 0 where
  pub correlation_id : String
  pub responded : List String
  pub required : List String
  pub complete : Bool
  pub waited_ms : ℕ
  pub timed_out : Bool

-- `self.required - self.responded`
unfoldable pub missing : BarrierResult → List String
missing r = filterb (λ a. not (contains a r.responded)) r.required

-- `required <= responded`
abbrev pub covers : List String → List String → Bool
covers responded [] = true
covers responded (a ∷ required) = contains a responded && covers responded required

-- `_Pending`, with `event.is_set()`
pub record Pending : Type 0 where
  pub required : List String
  pub responded : List String
  pub event_is_set : Bool

-- `_Pending.record`
unfoldable pub note_response : String → Pending → Pending
note_response agent p =
    let responded = add agent p.responded in
    record p {
      responded = responded;
      event_is_set = if covers responded p.required then true else p.event_is_set;
    }

pub record ResponseBarrier : Type 0 where
  pub pending : Dict Pending
  pub late_responses : ℕ

abbrev pub new_barrier : ResponseBarrier
new_barrier = record { pending = []; late_responses = 0 }

unfoldable pub expect : String → List String → ResponseBarrier → ResponseBarrier
expect id required b = record b {
  pending =
      insert id (record { required = required; responded = []; event_is_set = false }) b.pending;
}

-- `ResponseBarrier.record`
unfoldable pub note : String → String → ResponseBarrier → ResponseBarrier
note id agent b = elim (lookup id b.pending) [
  | none ↦ record b { late_responses = b.late_responses + 1 }
  | some p ↦ record b { pending = insert id (note_response agent p) b.pending }
]

unfoldable pub forget : String → ResponseBarrier → ResponseBarrier
forget id b = record b { pending = erase id b.pending }

unfoldable pub responded : String → ResponseBarrier → List String
responded id b = elim (lookup id b.pending) [ none ↦ [] | some p ↦ p.responded ]

abbrev pub outstanding : ResponseBarrier → ℕ
outstanding b = length b.pending

-- The result for a correlation id that was not registered.
abbrev pub unregistered : String → BarrierResult
unregistered id = record {
  correlation_id = id;
  responded = [];
  required = [];
  complete = true;
  waited_ms = 0;
  timed_out = false;
}

-- The result that `wait` gives from what is pending.
abbrev pub result_of : String → Pending → ℕ → Bool → BarrierResult
result_of id p waited timed_out =
    let complete = covers p.responded p.required in
    record {
      correlation_id = id;
      responded = p.responded;
      required = p.required;
      complete = complete;
      waited_ms = waited;
      timed_out = timed_out && not complete;
    }

-- `wait` up to its suspension: the result, where it has no reason to suspend.
unfoldable pub begin_wait : String → ResponseBarrier → Option BarrierResult × ResponseBarrier
begin_wait id b = elim (lookup id b.pending) [
  | none ↦ (some (unregistered id), b)
  | some p ↦ if p.event_is_set then (some (result_of id p 0 false), forget id b) else (none, b)
]

-- `wait` after it: `signalled` says that the waiter is done, and not only the timer. What was pending
-- when it began is pending still, when nobody expects or forgets the same id meanwhile.
unfoldable pub end_wait : String → Bool → ℕ → ℕ → ResponseBarrier → BarrierResult × ResponseBarrier
end_wait id signalled started now b = elim (lookup id b.pending) [
  | none ↦ (unregistered id, b)
  | some p ↦ (result_of id p (now - started) (not signalled), forget id b)
]

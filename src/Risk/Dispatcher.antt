-- ===== src/Risk/Dispatcher.antt =====
-- internal/risk/dispatcher.go: a queue of bounded length between the service and one worker.
mod Tests
use secure_ledger.Prelude.{
  ℕ, ◌+◌, ◌≤◌, ◌≡◌, refl, sym, ap, ◌∙◌, Bool, true, false, List, [], ◌∷◌, ◌++◌, length,
  length-append, ltb, if◌then◌else◌, arith, Bool-cases, inl, inr,
}
use mathlib.Core.List.{append-nil, append_assoc}
use secure_ledger.Prelude.Int.{ℤ, pos, pos_part, leb_ℤ}
use secure_ledger.Domain.{RiskEvent}

-- `Dispatcher`: what the channel holds, oldest first, and its capacity.
pub record Dispatcher : Type 0 where
  pub queue : List RiskEvent
  pub capacity : ℕ

unfoldable pub new_dispatcher : ℤ → Dispatcher
new_dispatcher capacity = record {
  queue = [];
  capacity = if leb_ℤ capacity (pos 0) then 128 else pos_part capacity;
}

-- `Submit`: it never waits; a full queue drops the event.
unfoldable pub submit : RiskEvent → Dispatcher → Bool × Dispatcher
submit event d =
    if ltb (length d.queue) d.capacity
    then (true, record d { queue = d.queue ++ event ∷ [] })
    else (false, d)

-- One round of `Run` that receives: the oldest event, if there is one, is dispatched.
front_of : List RiskEvent → List RiskEvent × List RiskEvent
front_of [] = ([], [])
front_of (e ∷ es) = (e ∷ [], es)

unfoldable pub receive : Dispatcher → List RiskEvent × Dispatcher
unfolding front_of
receive d = let (events, rest) = front_of d.queue in (events, record d { queue = rest })

-- What service and worker do, in the order in which the channel serves them.
pub data Action : Type 0 where
  submits : RiskEvent → Action
  receives : Action

-- A history of the channel: the dispatcher, the events that `Submit` took, and those dispatched.
pub record Trace : Type 0 where
  pub dispatcher : Dispatcher
  pub taken : List RiskEvent
  pub dispatched : List RiskEvent

act : Action → Trace → Trace
act (submits event) t =
    let (took, d) = submit event t.dispatcher in
    record {
      dispatcher = d;
      taken = (if took then t.taken ++ event ∷ [] else t.taken);
      dispatched = t.dispatched;
    }
act receives t =
    let (events, d) = receive t.dispatcher in
    record { dispatcher = d; taken = t.taken; dispatched = t.dispatched ++ events }

pub act_all : List Action → Trace → Trace
unfolding act
act_all [] t = t
act_all (a ∷ as') t = act_all as' (act a t)

abbrev pub start : Dispatcher → Trace
start d = record { dispatcher = d; taken = []; dispatched = [] }

-- Events leave in the order in which they were taken, none is lost or repeated, and the queue keeps
-- within its capacity.
pub record IsFifo (t : Trace) : Type 0 where
  pub in_order : t.taken ≡ t.dispatched ++ t.dispatcher.queue
  pub bounded : length t.dispatcher.queue ≤ t.dispatcher.capacity

-- What is received is the front of the queue.
front_of-append : (sent q : List RiskEvent) → sent ++ q ≡ (sent ++ (front_of q).0) ++ (front_of q).1
unfolding front_of
front_of-append sent [] = sym (append-nil (sent ++ []))
front_of-append sent (e ∷ es) = sym (append_assoc sent (e ∷ []) es)

length-front_of : (q : List RiskEvent) → length (front_of q).1 ≤ length q
unfolding front_of
length-front_of [] = omega arith
length-front_of (e ∷ es) = omega arith

act-IsFifo : (a : Action) (t : Trace) → IsFifo t → IsFifo (act a t)
unfolding act submit receive
act-IsFifo (submits event) t h =
    elim (Bool-cases (ltb (length t.dispatcher.queue) t.dispatcher.capacity)) [
      | inl room ↦ rw room (record {
        in_order =
            ap (λ es. es ++ event ∷ []) h.in_order
            ∙ append_assoc t.dispatched t.dispatcher.queue (event ∷ []);
        bounded = ground (arith, length-append t.dispatcher.queue (event ∷ []));
      })
      | inr full ↦ rw full h
    ]
act-IsFifo receives t h = record {
  in_order = h.in_order ∙ front_of-append t.dispatched t.dispatcher.queue;
  bounded = omega (arith, h.bounded, length-front_of t.dispatcher.queue);
}

act_all-IsFifo : (as' : List Action) (t : Trace) → IsFifo t → IsFifo (act_all as' t)
unfolding act_all
act_all-IsFifo [] t h = h
act_all-IsFifo (a ∷ as') t h = act_all-IsFifo as' (act a t) (act-IsFifo a t h)

-- From a new dispatcher, in any order of submissions and receptions: the events that `Submit` took are
-- those dispatched followed by those still queued, in the same order, and the queue keeps within its
-- capacity.
pub act_all-new-IsFifo :
    (capacity : ℤ) (as' : List Action) → IsFifo (act_all as' (start (new_dispatcher capacity)))
unfolding new_dispatcher
act_all-new-IsFifo capacity as' =
    act_all-IsFifo as' _ (record { in_order = refl; bounded = omega arith })

-- Whatever capacity was asked for, a new dispatcher takes its first event.
pub submit_first :
    (capacity : ℤ) (event : RiskEvent) → (submit event (new_dispatcher capacity)).0 ≡ true
unfolding submit new_dispatcher
submit_first capacity event = ground arith

-- ===== src/Risk/Dispatcher/Tests.antt =====
-- The theorems on the dispatcher, applied to a queue of length one.
use secure_ledger.Prelude.{String, List, [], ◌∷◌}
use secure_ledger.Prelude.Int.{pos}
use secure_ledger.Domain.{RiskEvent}
use secure_ledger.Risk.Dispatcher.{
  Action, submits, receives, act_all, start, new_dispatcher, IsFifo, act_all-new-IsFifo,
}

abbrev event : String → RiskEvent
event id = record {
  id = id;
  kind = "high_value_transfer";
  severity = "medium";
  transfer_id = "txn_1";
  reason = "amount_minor >= 1";
  created_at = 3;
}

-- The second submission finds the queue full.
abbrev actions : List Action
actions = submits (event "a") ∷ submits (event "b") ∷ receives ∷ submits (event "c") ∷ []

act_all-new-IsFifo_example : IsFifo (act_all actions (start (new_dispatcher (pos 1))))
act_all-new-IsFifo_example = act_all-new-IsFifo (pos 1) actions

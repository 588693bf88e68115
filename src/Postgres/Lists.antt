-- ===== src/Postgres/Lists.antt =====
-- The listings of the adapter: `ORDER BY ... DESC LIMIT n`, in ascending order again.
use Prim.Native.Nat.{ℕ}
use secure_ledger.Prelude.{
  String, Bool, ◌&&◌, ◌||◌, none, some, List, [], ◌∷◌, ltb, if◌then◌else◌, ◌==◌, nat_Eq, string_Eq,
  Result, ok, err, internal, ◌>>=◌,
}
use secure_ledger.Prelude.Int.{ltb_ℤ}
use secure_ledger.Prelude.Map.{Map, lookup}
use secure_ledger.Domain.{Posting, AuditRecord, RiskEvent}
use secure_ledger.Memory.{tail_of}
use secure_ledger.Postgres.Schema.{TransactionRow, PostingRow, AuditRow, RiskRow}
use secure_ledger.Postgres.Rows.{Server}

module _ {A : Type 0} (earlier : A → A → Bool) where
  unfoldable pub insert_by : A → List A → List A
  insert_by x [] = x ∷ []
  insert_by x (y ∷ ys) = if earlier y x then y ∷ insert_by x ys else x ∷ y ∷ ys

  -- `ORDER BY`
  unfoldable pub sort_by : List A → List A
  unfolding insert_by
  sort_by [] = []
  sort_by (x ∷ xs) = insert_by x (sort_by xs)

  -- The last `n` rows of the order, in the order.
  unfoldable pub latest : ℕ → List A → List A
  latest n xs = tail_of n (sort_by xs)

abbrev pub values : {A : Type 0} → Map String A → List A
values [] = []
values ((_, a) ∷ m) = a ∷ values m

abbrev pub joined_posting : PostingRow → TransactionRow → Posting
joined_posting p r = record {
  id = p.id;
  transaction_id = p.transaction_id;
  account_id = p.account_id;
  amount_minor = p.amount_minor;
  currency = r.currency;
  sequence = p.sequence_no;
  created_at = p.created_at;
}

-- `postings p JOIN journal_transactions jt ON jt.id = p.transaction_id`
unfoldable pub join_postings : Map String TransactionRow → List PostingRow → List Posting
join_postings rows [] = []
join_postings rows (p ∷ ps) = elim (lookup p.transaction_id rows) [
  | none ↦ join_postings rows ps
  | some r ↦ joined_posting p r ∷ join_postings rows ps
]

abbrev pub posting_earlier : Posting → Posting → Bool
posting_earlier p q = ltb_ℤ p.sequence q.sequence

abbrev pub audit_earlier : AuditRow → AuditRow → Bool
audit_earlier p q = ltb_ℤ p.sequence_no q.sequence_no

-- `ORDER BY created_at, id`
abbrev pub risk_earlier : Server → RiskRow → RiskRow → Bool
risk_earlier server p q =
    ltb p.created_at q.created_at || p.created_at == q.created_at && server.before p.id q.id

abbrev pub event_of : RiskRow → RiskEvent
event_of r = record {
  id = r.id;
  kind = r.event_type;
  severity = r.severity;
  transfer_id = r.transaction_id;
  reason = r.reason;
  created_at = r.created_at;
}

abbrev pub events_of : List RiskRow → List RiskEvent
events_of [] = []
events_of (r ∷ rs) = event_of r ∷ events_of rs

-- The scan of `ListAudit`, whose first metadata that is no JSON object is an error. A row's metadata is
-- never the empty text.
abbrev decoded : Server → AuditRow → Result AuditRecord
decoded server r = elim (server.decode r.metadata) [
  | none ↦ err internal
  | some m ↦ ok (record {
    id = r.id;
    actor_id = r.actor_id;
    action = r.action;
    resource_id = r.resource_id;
    outcome = r.outcome;
    metadata = some m;
    created_at = r.created_at;
  })
]

unfoldable pub decode_all : Server → List AuditRow → Result (List AuditRecord)
decode_all server [] = ok []
decode_all server (r ∷ rs) = do a ← decoded server r; as' ← decode_all server rs; ok (a ∷ as')

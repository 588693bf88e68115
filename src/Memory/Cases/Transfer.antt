-- ===== src/Memory/Cases/Transfer.antt =====
-- The ways in which `ApplyTransfer` ends, as data: what each check found, the reply
-- and the final state.
use secure_ledger.Prelude.{
  ◌≡◌, true, false, none, some, Option-cases, Bool-cases, inl, inr, Error, idempotency_conflict, ok,
  err, Result-cases, Context, check_context, arith,
}
use secure_ledger.Prelude.Map.{lookup}
use secure_ledger.Domain.{Transfer, validate_balanced, intent_equal}
use secure_ledger.Store.{ApplyTransferInput}
use secure_ledger.Memory.{
  Store, Parties, scope_of, scope_Eq, replay, check_transfer_input, check_transfer_ids,
  find_parties, check_amount, transfer_postings, write_transfer, apply_new, apply_transfer,
}

-- What an accepted transfer has passed.
pub record Accepted (input : ApplyTransferInput) (s : Store) (p : Parties) : Type 0 where
  pub valid : check_transfer_input input ≡ ok tt
  pub unknown : lookup (scope_of input.transfer) s.idempotency ≡ none
  pub fresh : check_transfer_ids input s ≡ ok tt
  pub parties : find_parties input.transfer s ≡ ok p
  pub covered : check_amount input.transfer.intent.amount_minor p ≡ ok tt
  pub balanced : validate_balanced (transfer_postings input p s.sequence) ≡ ok tt

abbrev pub accepted_state : ApplyTransferInput → Parties → Store → Store
accepted_state input p s = write_transfer input p (transfer_postings input p s.sequence) s

pub data TransferCase (ctx : Context) (input : ApplyTransferInput) (s : Store) : Type 0 where
  refused : (e : Error) → apply_transfer ctx input s ≡ (err e, s) → TransferCase ctx input s
  replayed :
      (t : Transfer)
      → lookup (scope_of input.transfer) s.idempotency ≡ some t
      → intent_equal t.intent input.transfer.intent ≡ true
      → apply_transfer ctx input s ≡ (ok (record { transfer = t; replayed = true }), s)
      → TransferCase ctx input s
  accepted :
      (p : Parties)
      → Accepted input s p
      → apply_transfer ctx input s
        ≡ (ok (record { transfer = input.transfer; replayed = false }), accepted_state input p s)
      → TransferCase ctx input s

module _ (ctx : Context) (input : ApplyTransferInput) (s : Store) where
  new_case :
      check_context ctx ≡ ok tt
      → check_transfer_input input ≡ ok tt
      → lookup (scope_of input.transfer) s.idempotency ≡ none
      → TransferCase ctx input s
  new_case live valid unknown = elim (Result-cases (check_transfer_ids input s)) [
    | inl (e, bad) ↦ refused e (unfold apply_transfer apply_new in ground arith)
    | inr (_, fresh) ↦ elim (Result-cases (find_parties input.transfer s)) [
      | inl (e, bad) ↦ refused e (unfold apply_transfer apply_new in ground arith)
      | inr (p, found) ↦ elim (Result-cases (check_amount input.transfer.intent.amount_minor p)) [
        | inl (e, bad) ↦ refused e (unfold apply_transfer apply_new in ground arith)
        | inr (_, covered) ↦
            elim (Result-cases (validate_balanced (transfer_postings input p s.sequence))) [
              | inl (e, bad) ↦ refused e (unfold apply_transfer apply_new in ground arith)
              | inr (_, balanced) ↦
                  accepted p
                    (record {
                      valid = valid;
                      unknown = unknown;
                      fresh = fresh;
                      parties = found;
                      covered = covered;
                      balanced = balanced;
                    })
                    (unfold apply_transfer apply_new in ground arith)
            ]
      ]
    ]
  ]

  pub apply_transfer-cases : TransferCase ctx input s
  apply_transfer-cases = elim (Result-cases (check_context ctx)) [
    | inl (e, dead) ↦ refused e (unfold apply_transfer in ground arith)
    | inr (_, live) ↦ elim (Result-cases (check_transfer_input input)) [
      | inl (e, bad) ↦ refused e (unfold apply_transfer in ground arith)
      | inr (_, valid) ↦ elim (Option-cases (lookup (scope_of input.transfer) s.idempotency)) [
        | inl unknown ↦ new_case live valid unknown
        | inr (t, known) ↦ elim (Bool-cases (intent_equal t.intent input.transfer.intent)) [
          | inl same ↦ replayed t known same (unfold apply_transfer replay in ground arith)
          | inr other ↦ refused idempotency_conflict (unfold apply_transfer replay in ground arith)
        ]
      ]
    ]
  ]

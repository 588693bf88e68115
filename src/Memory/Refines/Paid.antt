-- ===== src/Memory/Refines/Paid.antt =====
-- A transfer that the in-memory store accepts pays in the abstract ledger.
use secure_ledger.Prelude.{String, ◌≡◌, sym, ap, ◌∙◌, string_Eq, arith, eq_iff}
use secure_ledger.Prelude.Map.{lookup, insert, lookup-insert}
use secure_ledger.Store.{ApplyTransferInput}
use secure_ledger.Contract.{holding_of, pay, pay_accounts, pay_receipts, IsPayable}
use secure_ledger.Memory.{Store, Parties, scope_Eq, scope_of, write_transfer, move_balances}
use secure_ledger.Memory.Cases.{Accepted, accepted_state}
use secure_ledger.Memory.Sound.{IsSound}
use secure_ledger.Memory.Sound.Applied
use secure_ledger.Memory.Refines.{view, view_account, view_transfer}

module _ (input : ApplyTransferInput) (s : Store) (p : Parties) (sound : IsSound s)
    (a : Accepted input s p) where
  after_accounts :
      (id : String)
      → view_account (lookup id (move_balances input.transfer.intent.amount_minor p s.accounts))
        ≡ pay_accounts input.transfer (view s).accounts id
  after_accounts id = ground (
    arith,
    Applied.lookup-moved input s p sound a id,
    eq_iff id p.to.id,
    eq_iff id p.from.id,
    Applied.from_id input s p sound a,
    Applied.to_id input s p sound a,
    Applied.from_exact input s p sound a,
    Applied.to_exact input s p sound a,
    Applied.from_stored input s p sound a,
    Applied.to_stored input s p sound a,
    eq_iff id input.transfer.intent.to_account_id,
    eq_iff id input.transfer.intent.from_account_id,
  )

  after_paid :
      (actor key : String)
      → view_transfer (
          lookup
            (record { actor_id = actor; key = key })
            (insert (scope_of input.transfer) input.transfer s.idempotency))
        ≡ pay_receipts input.transfer (view s).paid actor key
  after_paid actor key =
      ap view_transfer (
        lookup-insert (record { actor_id = actor; key = key }) (scope_of input.transfer)
          input.transfer s.idempotency)
      ∙ ground arith

  pub accepted-pay : view (accepted_state input p s) ≡ pay input.transfer (view s)
  unfolding write_transfer
  accepted-pay = λ i. record {
    accounts = λ id. after_accounts id i;
    paid = λ actor key. after_paid actor key i;
  }

  pub accepted-IsPayable : IsPayable input.transfer (view s)
  accepted-IsPayable = record {
    from = holding_of p.from;
    to = holding_of p.to;
    from_known = ap view_account (Applied.parties input s p sound a).from.stored;
    to_known = ap view_account (Applied.parties input s p sound a).to.stored;
    distinct = λ e.
        (Applied.parties input s p sound a).distinct
          (Applied.from_id input s p sound a ∙ e ∙ sym (Applied.to_id input s p sound a));
    from_customer = (Applied.parties input s p sound a).from.no_system;
    to_customer = (Applied.parties input s p sound a).to.no_system;
    from_currency = (Applied.parties input s p sound a).its_currency;
    to_currency =
        sym (Applied.parties input s p sound a).one_currency
        ∙ (Applied.parties input s p sound a).its_currency;
    positive = (Applied.covered input s p sound a).positive;
    covered = (Applied.covered input s p sound a).covered;
    room = (Applied.covered input s p sound a).room;
    unpaid = ap view_transfer a.unknown;
  }

-- ===== src/Contract/Service.antt =====
-- The transfers of internal/app over any repository that keeps to the contract.
use secure_ledger.Prelude.{◌≡◌, sym, ap, ◌∙◌, subst, true, Context, ok}
use secure_ledger.Prelude.Text.{trim_space}
use secure_ledger.Domain.{Principal}
use secure_ledger.Store.{ApplyTransferInput, TransferResult}
use secure_ledger.App.{Service, Surroundings, TransferCommand, transfer}
use secure_ledger.App.Applied.{Asked, Applied, transfer-Applied}
use secure_ledger.Contract.{View, receipt_of, Answered, IsLedger}
use secure_ledger.Contract.Client.{pays_once}

-- What a granted transfer of the service has done to the ledger: the transfer that the command asks for
-- is paid in the ledger that the attempt found which is answered, or was paid before.
pub record HasAnswered {S : Type 0} (view : S → View)
    (commits : Context → ApplyTransferInput → S → S → Type 0) (ctx : Context) (actor : Principal)
    (cmd : TransferCommand) (r : TransferResult) (s s' : S) : Type 0 where
  pub input : ApplyTransferInput
  pub asked : Asked actor cmd input
  pub seen : S
  pub found : commits ctx input s seen
  pub answered : Answered input.transfer r (view seen) (view s')

module _ {S N : Type 0} (service : Service S N) (view : S → View) (good : S → Type 0)
    (between : S → S → Type 0) (finds commits : Context → ApplyTransferInput → S → S → Type 0)
    (ledger : IsLedger service.repo view good between finds commits) where
  applied :
      (ctx : Context) (env : Surroundings) (actor : Principal) (cmd : TransferCommand) (w : S × N)
      (r : TransferResult)
      → (transfer service ctx env actor cmd w).0 ≡ ok r
      → Applied service.repo ctx actor cmd r w.0 (transfer service ctx env actor cmd w).1.0
  applied ctx env actor cmd w r h =
      transfer-Applied service (λ c id. record { at = ledger.same c id }) ctx env actor cmd w r h

  -- Over any repository that keeps to the contract, a granted transfer of the service is the payment that the
  -- command asks for, in the name of the actor, in the ledger that the answered attempt found, or is
  -- reported as a replay of a payment with the same intent, which stands there under the actor and the
  -- key, and changes nothing of it.
  pub service_transfer-HasAnswered :
      (ctx : Context) (env : Surroundings) (actor : Principal) (cmd : TransferCommand) (w : S × N)
      (r : TransferResult)
      → good w.0
      → (transfer service ctx env actor cmd w).0 ≡ ok r
      → HasAnswered view commits ctx actor cmd r w.0 (transfer service ctx env actor cmd w).1.0
  service_transfer-HasAnswered ctx env actor cmd w r sound h =
      let a = applied ctx env actor cmd w r h in
      let (seen, found, answered) = ledger.transfers ctx a.input w.0 r sound a.granted in
      record {
        input = a.input;
        asked = a.asked;
        seen = seen;
        found = found;
        answered =
            subst (λ s'. Answered a.input.transfer r (view seen) (view s')) (sym a.after) answered;
      }

module _ {S N N' : Type 0} (service : Service S N) (service' : Service S N') (view : S → View)
    (good : S → Type 0) (between : S → S → Type 0)
    (finds commits finds' commits' : Context → ApplyTransferInput → S → S → Type 0)
    (ledger : IsLedger service.repo view good between finds commits)
    (ledger' : IsLedger service'.repo view good between finds' commits') where
  -- With services over repositories that keep to the contract of one ledger, a transfer that one of them
  -- has granted is paid once: a granted transfer of the same actor with the same trimmed key at the
  -- other (or at the same), after whatever others have done in between, is reported as a replay of the
  -- same payment, and leaves the ledger as the answered attempt found it.
  pub service_transfer-pays_once :
      (ctx ctx' : Context) (env env' : Surroundings) (actor actor' : Principal)
      (first second : TransferCommand) (w : S × N) (w' : S × N') (r r' : TransferResult)
      → good w.0
      → (transfer service ctx env actor first w).0 ≡ ok r
      → between (transfer service ctx env actor first w).1.0 w'.0
      → actor'.id ≡ actor.id
      → trim_space second.idempotency_key ≡ trim_space first.idempotency_key
      → (transfer service' ctx' env' actor' second w').0 ≡ ok r'
      → (r'.replayed ≡ true)
        × (receipt_of r'.transfer ≡ receipt_of r.transfer)
        × ((input : ApplyTransferInput) × Asked actor' second input
            × ((seen : S) × commits' ctx' input w'.0 seen
                × (view (transfer service' ctx' env' actor' second w').1.0 ≡ view seen)))
  service_transfer-pays_once ctx ctx' env env' actor actor' first second w w' r r' sound h moved
        same key h' =
      let a = applied service view good between finds commits ledger ctx env actor first w r h in
      let b =
        applied service' view good between finds' commits' ledger' ctx' env' actor' second w' r'
          h' in
      let (replay, receipt, (seen, found, unchanged)) =
        pays_once view good between service.repo service'.repo finds commits finds' commits' ledger
          ledger' ctx ctx' a.input b.input w.0 w'.0 r r' sound a.granted
          (subst (λ s. between s w'.0) a.after moved)
          (b.asked.actor_id ∙ same ∙ sym a.asked.actor_id) (b.asked.key ∙ key ∙ sym a.asked.key)
          b.granted in
      (replay, receipt, (b.input, b.asked, (seen, found, ap view b.after ∙ unchanged)))

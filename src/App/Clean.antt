-- ===== src/App/Clean.antt =====
-- A method of the service that returns an error has left the repository as it was, if the
-- repository's own methods do so.
use secure_ledger.Prelude.{
  String, ◌≡◌, refl, ◌∙◌, Bool, Option, none, some, Context, Error, Result, ok, err,
}
use secure_ledger.Prelude.Int.{ℤ}
use secure_ledger.Prelude.Exec.{Exec, pure, lift, continue, ◌>>=◌}
use secure_ledger.Domain.{Principal, RiskEvent}
use secure_ledger.Store.{Repository, CreateAccountInput, ApplyTransferInput, TransferResult}
use secure_ledger.App.{
  Service, Surroundings, CreateAccountCommand, TransferCommand, on_repo, notify, create_account,
  get_account, ready, transfer, list_journal, list_audit, list_risk_events,
}

-- `m` reads the state and does not write it.
pub record Reads {S A : Type 0} (m : Exec S A) : Type 0 where
  pub at : (s : S) → (m s).1 ≡ s

-- `m` has written nothing if it returns an error.
pub record IsAtomic {S A : Type 0} (m : Exec S A) : Type 0 where
  pub at : (s : S) (e : Error) → (m s).0 ≡ err e → (m s).1 ≡ s

-- `m` leaves the repository, the first part of the state, as it was if it returns an error.
pub record IsClean {S N A : Type 0} (m : Exec (S × N) A) : Type 0 where
  pub at : (w : S × N) (e : Error) → (m w).0 ≡ err e → (m w).1.0 ≡ w.0

-- What is asked of a repository.
pub record IsAtomicRepository {S : Type 0} (repo : Repository S) : Type 0 where
  pub ping : (ctx : Context) → Reads (repo.ping ctx)
  pub create_account :
      (ctx : Context) (input : CreateAccountInput) → IsAtomic (repo.create_account ctx input)
  pub get_account : (ctx : Context) (id : String) → Reads (repo.get_account ctx id)
  pub apply_transfer :
      (ctx : Context) (input : ApplyTransferInput) → IsAtomic (repo.apply_transfer ctx input)
  pub list_journal : (ctx : Context) (limit : ℤ) → Reads (repo.list_journal ctx limit)
  pub list_audit : (ctx : Context) (limit : ℤ) → Reads (repo.list_audit ctx limit)
  pub list_risk_events : (ctx : Context) (limit : ℤ) → Reads (repo.list_risk_events ctx limit)

module _ {S N : Type 0} where
  pub IsClean-lift :
      {A B : Type 0} (r : Result A) (f : A → Exec (S × N) B)
      → ((a : A) → IsClean (f a))
      → IsClean (lift r >>= f)
  unfolding ◌>>=◌
  IsClean-lift (ok a) f h = record { at = λ w e x. (h a).at w e x }
  IsClean-lift (err c) f h = record { at = λ w e x. refl }

  Reads-IsClean : {A : Type 0} (m : Exec S A) → Reads m → IsClean (on_repo {N = N} m)
  Reads-IsClean m h = record { at = λ w e x. h.at w.0 }

  IsAtomic-IsClean : {A : Type 0} (m : Exec S A) → IsAtomic m → IsClean (on_repo {N = N} m)
  IsAtomic-IsClean m h = record { at = λ w e x. h.at w.0 e x }

  -- Behind a call that only reads, a clean block is clean.
  IsClean-read :
      {A B : Type 0} (m : Exec S A) (f : A → Exec (S × N) B)
      → Reads m
      → ((a : A) → IsClean (f a))
      → IsClean (on_repo m >>= f)
  unfolding ◌>>=◌
  IsClean-read {A} {B} m f reads h = record {
    at = λ w e x. let (r, s') = m w.0 in go r s' w.1 e x ∙ reads.at w.0;
  }
    where
      go :
          (r : Result A) (s' : S) (n : N) (e : Error)
          → (continue r f (s', n)).0 ≡ err e
          → (continue r f (s', n)).1.0 ≡ s'
      go (ok a) s' n e x = (h a).at (s', n) e x
      go (err c) s' n e x = refl

  -- Behind a call that writes, the block must not fail.
  IsClean-write :
      {A B : Type 0} (m : Exec S A) (f : A → Exec (S × N) B)
      → IsAtomic m
      → ((a : A) (w : S × N) → (b : B) × ((f a w).0 ≡ ok b))
      → IsClean (on_repo m >>= f)
  unfolding ◌>>=◌
  IsClean-write {A} {B} m f atomic h = record {
    at = λ w e x. let (r, s') = m w.0 in go r s' w.1 w.0 e x (λ c y. atomic.at w.0 c y);
  }
    where
      go :
          (r : Result A) (s' : S) (n : N) (s : S) (e : Error)
          → (continue r f (s', n)).0 ≡ err e
          → ((c : Error) → r ≡ err c → s' ≡ s)
          → (continue r f (s', n)).1.0 ≡ s
      go (ok a) s' n s e x k = let (b, y) = h a (s', n) in cc
      go (err c) s' n s e x k = k c refl

  IsClean-pure : {A : Type 0} (a : A) → IsClean (pure {S = S × N} a)
  unfolding pure
  IsClean-pure a = record { at = λ w e x. refl }

  returned : {A : Type 0} (a : A) (w : S × N) → (b : A) × ((pure a w).0 ≡ ok b)
  unfolding pure
  returned a w = (a, refl)

  notified :
      (submit : Option (RiskEvent → N → Bool × N)) (risk : Option RiskEvent) (r : TransferResult)
      (w : S × N)
      → (b : TransferResult) × (((notify submit risk r >>= λ _. pure r) w).0 ≡ ok b)
  unfolding notify ◌>>=◌
  notified none risk r w = (r, refl)
  notified (some submit) none r w = (r, refl)
  notified (some submit) (some e) r w = (r, refl)

module _ {S N : Type 0} (service : Service S N) (repo : IsAtomicRepository service.repo) where
  pub transfer-IsClean :
      (ctx : Context) (env : Surroundings) (actor : Principal) (cmd : TransferCommand)
      → IsClean (transfer service ctx env actor cmd)
  unfolding transfer
  transfer-IsClean ctx env actor cmd = IsClean-lift _ _ λ _. IsClean-lift _ _ λ _.
      IsClean-lift _ _ λ _. IsClean-read _ _ (repo.get_account ctx _) λ from. IsClean-lift _ _ λ _.
        IsClean-read _ _ (repo.get_account ctx _) λ to.
          IsClean-lift _ _ λ _.
            IsClean-write _ _ (repo.apply_transfer ctx _) λ r w. notified service.notifier _ r w

  pub create_account-IsClean :
      (ctx : Context) (env : Surroundings) (actor : Principal) (cmd : CreateAccountCommand)
      → IsClean (create_account service ctx env actor cmd)
  unfolding create_account
  create_account-IsClean ctx env actor cmd = IsClean-lift _ _ λ _.
      IsClean-lift _ _
        λ _. IsClean-lift _ _ λ _. IsClean-write _ _ (repo.create_account ctx _) λ _ w. returned _ w

  pub get_account-IsClean :
      (ctx : Context) (actor : Principal) (id : String) → IsClean (get_account service ctx actor id)
  unfolding get_account
  get_account-IsClean ctx actor id = IsClean-lift _ _ λ _.
      IsClean-lift _ _
        λ _. IsClean-read _ _ (repo.get_account ctx _) λ found. IsClean-lift _ _ λ _. IsClean-pure _

  pub ready-IsClean : (ctx : Context) → IsClean (ready service ctx)
  unfolding ready
  ready-IsClean ctx = Reads-IsClean _ (repo.ping ctx)

  pub list_journal-IsClean :
      (ctx : Context) (actor : Principal) (limit : ℤ)
      → IsClean (list_journal service ctx actor limit)
  unfolding list_journal
  list_journal-IsClean ctx actor limit =
      IsClean-lift _ _ λ _. Reads-IsClean _ (repo.list_journal ctx limit)

  pub list_audit-IsClean :
      (ctx : Context) (actor : Principal) (limit : ℤ) → IsClean (list_audit service ctx actor limit)
  unfolding list_audit
  list_audit-IsClean ctx actor limit =
      IsClean-lift _ _ λ _. Reads-IsClean _ (repo.list_audit ctx limit)

  pub list_risk_events-IsClean :
      (ctx : Context) (actor : Principal) (limit : ℤ)
      → IsClean (list_risk_events service ctx actor limit)
  unfolding list_risk_events
  list_risk_events-IsClean ctx actor limit =
      IsClean-lift _ _ λ _. Reads-IsClean _ (repo.list_risk_events ctx limit)

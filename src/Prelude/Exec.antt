-- ===== src/Prelude/Exec.antt =====
-- Methods that change a state and may return an error. What was written before an error stays
-- written, so the state comes back beside the error too.
use mathlib.Core.Path.{◌≡◌, refl}
use secure_ledger.Prelude.Results.{Result, ok, err}

abbrev pub Exec : Type 0 → Type 0 → Type 0
Exec S A = S → Result A × S

module _ {S A : Type 0} where
  unfoldable pub pure : A → Exec S A
  pure a s = (ok a, s)

  -- A check that reads no state.
  unfoldable pub lift : Result A → Exec S A
  lift r s = (r, s)

  -- A check that reads the state.
  unfoldable pub asks : (S → Result A) → Exec S A
  asks f s = (f s, s)

  unfoldable pub gets : (S → A) → Exec S A
  gets f s = (ok (f s), s)

unfoldable pub modify : {S : Type 0} → (S → S) → Exec S Unit
modify f s = (ok tt, f s)

module _ {S A B : Type 0} where
  abbrev pub continue : Result A → (A → Exec S B) → Exec S B
  continue (err e) next s = (err e, s)
  continue (ok found) next s = next found s

  infixl 5 ◌>>=◌ ◌>>◌
  -- Opening this opens the primitive actions too.
  unfoldable pub ◌>>=◌ : Exec S A → (A → Exec S B) → Exec S B
  unfolding pure lift asks gets modify
  ◌>>=◌ m f s = let (r, s') = m s in continue r f s'

  abbrev pub ◌>>◌ : Exec S A → Exec S B → Exec S B
  m >> k = m >>= λ _. k

  -- What a successful bind had to pass.
  pub >>=-eq-ok :
      (m : Exec S A) (f : A → Exec S B) (s : S) {b : B}
      → ((m >>= f) s).0 ≡ ok b
      → (a : A) × (s' : S) × (m s ≡ (ok a, s')) × ((f a s').0 ≡ ok b)
  unfolding ◌>>=◌
  >>=-eq-ok m f s {b} h = let (r, s') = m s in go r s' refl h
    where
      go :
          (r : Result A) (s' : S)
          → m s ≡ (r, s')
          → (continue r f s').0 ≡ ok b
          → (a : A) × (s' : S) × (m s ≡ (ok a, s')) × ((f a s').0 ≡ ok b)
      go (ok a) s' e h' = (a, s', e, h')
      go (err x) s' e h' = cc

-- The steps of a successful block, with the states between them.
pub >>=-runs :
    {S A B : Type 0} (m : Exec S A) (next : A → Exec S B) (s : S) {reply : B} {last : S}
    → (m >>= next) s ≡ (ok reply, last)
    → (found : A) × (after : S) × (m s ≡ (ok found, after)) × (next found after ≡ (ok reply, last))
unfolding ◌>>=◌
>>=-runs {S} {A} {B} m next s {reply} {last} h = go (m s).0 (m s).1 refl h
  where
    go :
        (r : Result A) (after : S)
        → m s ≡ (r, after)
        → continue r next after ≡ (ok reply, last)
        → (found : A) × (after : S) × (m s ≡ (ok found, after))
          × (next found after ≡ (ok reply, last))
    go (ok found) after e h' = (found, after, e, h')
    go (err e') after e h' = cc

-- A check that reads no state, at the head of a block that succeeded.
pub lift->>-eq-ok :
    {S B : Type 0} (r : Result Unit) (k : Exec S B) (s : S) {b : B}
    → ((lift r >> k) s).0 ≡ ok b
    → (r ≡ ok tt) × ((k s).0 ≡ ok b)
unfolding ◌>>=◌
lift->>-eq-ok (ok tt) k s h = (refl, h)
lift->>-eq-ok (err e) k s h = cc

-- `m` keeps `P`, whether it succeeds or not.
pub record Keeps {S A : Type 0} (P : S → Type 0) (m : Exec S A) : Type 0 where
  pub at : (s : S) → P s → P (m s).1

module _ {S : Type 0} {P : S → Type 0} where
  pub Keeps-bind :
      {A B : Type 0} (m : Exec S A) (next : A → Exec S B)
      → Keeps P m
      → ((a : A) → Keeps P (next a))
      → Keeps P (m >>= next)
  unfolding ◌>>=◌
  Keeps-bind {A} {B} m next first rest = record {
    at = λ s kept. let (r, after) = m s in go r after (first.at s kept);
  }
    where
      go : (r : Result A) (after : S) → P after → P (continue r next after).1
      go (err e) after kept = kept
      go (ok a) after kept = (rest a).at after kept

  -- A check, or a value, leaves the state as it is.
  pub Keeps-lift : {A : Type 0} (r : Result A) → Keeps P (lift {A = A} r)
  unfolding lift
  Keeps-lift r = record { at = λ s kept. kept }

  pub Keeps-pure : {A : Type 0} (a : A) → Keeps P (pure {A = A} a)
  unfolding pure
  Keeps-pure a = record { at = λ s kept. kept }

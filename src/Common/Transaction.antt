-- ===== src/Common/Transaction.antt =====
-- A method's body in `with self.connection:` of sqlite3: it commits when it returns, and a body that
-- raises is rolled back.
use mathlib.Core.Path.{◌≡◌, refl}
use native.Mathlib.Omega.{arith}
use mathai_ai_swarm_memory.Common.Outcome.{Result, ok, err}

module _ {κ ℓ μ} {E : Type κ} {S : Type ℓ} {A : Type μ} where
  abbrev pub committed : S → Result E (A × S) → Result E A × S
  committed st (ok (a, st')) = (ok a, st')
  committed st (err e) = (err e, st)

  -- What holds before a transaction, and of every store that its body returns, holds afterwards.
  pub committed_keeps {ν} :
      (P : S → Type ν) (st : S) (m : Result E (A × S))
      → P st
      → ((a : A) (st' : S) → m ≡ ok (a, st') → P st')
      → P (committed st m).1
  committed_keeps P st (ok (a, st')) h k = k a st' refl
  committed_keeps P st (err e) h k = h

  -- A transaction that returns has committed what its body returned.
  pub committed-ok :
      (st : S) (m : Result E (A × S)) (a : A) (st' : S)
      → committed st m ≡ (ok a, st')
      → m ≡ ok (a, st')
  committed-ok st (ok (b, st1)) a st' h = cc
  committed-ok st (err e) a st' h = absurd (ground arith)

  pub committed-ran :
      (st : S) (m : Result E (A × S)) (a : A)
      → (committed st m).0 ≡ ok a
      → (st' : S) × (m ≡ ok (a, st'))
  committed-ran st (ok (b, st1)) a h = (st1, cc)
  committed-ran st (err e) a h = cc

-- ===== src/Utils/Network/Results.antt =====
-- Rules for what an asynchronous function has requested when it returns.
use set_protocol_v2_contract.Common.{
  List, ◌∷◌, Result, ok, ◌≡◌, arith, inl, inr, Result-cases, subst₂,
}
use set_protocol_v2_contract.Utils.Network.{Request, Async, ◌>>=◌, pure, answer}

-- Whenever it returns, its result and all requests so far satisfy P.
abbrev pub Yields : {A : Type 0} → (A → List Request → Type 0) → Async A → Type 0
Yields {A} P m =
    (log : List Request) (a : A) (log' : List Request) → m log ≡ ok (a, log') → P a log'

module _ {A B : Type 0} where
  pub bind-Yields :
      (P : B → List Request → Type 0) (m : Async A) (k : A → Async B)
      → ((a : A) → Yields P (k a))
      → Yields P (m >>= k)
  unfolding ◌>>=◌
  bind-Yields P m k h log b log' e = elim (Result-cases (m log)) [
    | inl ((a, before), returns) ↦ h a before b log' (rw (returns, ◌>>=◌) at e)
    | inr (error, throws) ↦ absurd (ground arith)
  ]

  -- A request that is the last thing before the result is the latest of the requests.
  pub final-Yields :
      (P : B → List Request → Type 0) (reply : List Request → Request → Result A) (r : Request)
      (b : B)
      → ((log : List Request) → P b (r ∷ log))
      → Yields P (answer reply r >>= λ _. pure b)
  unfolding ◌>>=◌ answer pure
  final-Yields P reply r b h log b' log' e = elim (Result-cases (reply log r)) [
    | inl (a, answered) ↦
        let same : (b ≡ b') × (r ∷ log ≡ log') = ground arith in subst₂ P same.0 same.1 (h log)
    | inr (error, throws) ↦ absurd (ground arith)
  ]

-- ===== src/SessionRunner/Run/Yields.antt =====
-- What actions return where they do not raise, and the lists that a session makes of its items and stages.
use fireviewer_orchestrator.Common.{
  ℕ, suc, ◌+◌, Bool, true, false, Option, none, some, List, [], ◌∷◌, ◌++◌, ◌≡◌, refl, ap, arith,
  length, map, if◌then◌else◌,
}
use fireviewer_orchestrator.Common.Order.{string_ord}
use fireviewer_orchestrator.Common.Dict.{lookup}
use fireviewer_orchestrator.Contracts.{BatchItem, ItemResult}
use fireviewer_orchestrator.SessionRunner.Effects.{
  Fault, Outcome, ok, raised, State, Exec, continue,
}
use fireviewer_orchestrator.SessionRunner.Patches.{Results}
use fireviewer_orchestrator.SessionRunner.Candidate.Laws.{WhenOk}
use fireviewer_orchestrator.SessionRunner.Run.{items_of}

-- If the action does not raise, its value satisfies `P`.
abbrev pub Yields : {W A : Type 0} → (A → Type 0) → Exec W A → Type 0
Yields {W} P m = (s : State W) → WhenOk P (m s).0

pub Yields-continue :
    {W A B : Type 0} (P : A → Type 0) (Q : B → Type 0) (o : Outcome A) (f : A → Exec W B)
    (s : State W)
    → WhenOk P o
    → ((a : A) → P a → Yields {W = W} Q (f a))
    → WhenOk Q (continue o f s).0
Yields-continue P Q (ok a) f s p k = k a p s
Yields-continue P Q (raised e) f s p k = tt

pub Yields-if :
    {W A : Type 0} (P : A → Type 0) (b : Bool) (m n : Exec W A) (s : State W)
    → (b ≡ true → WhenOk P (m s).0)
    → (b ≡ false → WhenOk P (n s).0)
    → WhenOk P ((if b then m else n) s).0
Yields-if P true m n s h k = h refl
Yields-if P false m n s h k = k refl

pub WhenOk-any : {A : Type 0} (o : Outcome A) → WhenOk (λ a. Unit) o
WhenOk-any (ok a) = tt
WhenOk-any (raised f) = tt

-- `n`, `n + 1`, ... for the members of a list
abbrev pub numbered {ℓ} : {A : Type ℓ} → ℕ → List A → List ℕ
numbered n [] = []
numbered n (x ∷ xs) = n ∷ numbered (n + 1) xs

pub numbered-append_one {ℓ} :
    {A : Type ℓ} (n : ℕ) (xs : List A) (x : A)
    → numbered n (xs ++ x ∷ []) ≡ numbered n xs ++ (n + length xs) ∷ []
numbered-append_one n [] x = ground arith
numbered-append_one n (y ∷ ys) x = ground (arith, numbered-append_one (n + 1) ys x)

items_of_step :
    (n : ℕ) (found : Option ItemResult) (rest : Outcome (List ItemResult))
    → WhenOk (λ (rs : List ItemResult). length rs ≡ n) rest
    → WhenOk
        (λ (rs : List ItemResult). length rs ≡ suc n)
        (elim found [
          | none ↦ raised Fault.other_error
          | some x ↦ elim rest [ raised f ↦ raised f | ok rs ↦ ok (x ∷ rs) ]
        ])
items_of_step n none rest p = tt
items_of_step n (some x) (ok rs) p = ap suc p
items_of_step n (some x) (raised f) p = tt

pub items_of-length :
    (items : List BatchItem) (r : Results)
    → WhenOk (λ (rs : List ItemResult). length rs ≡ length items) (items_of items r)
unfolding items_of
items_of-length [] r = refl
items_of-length (i ∷ items) r =
    items_of_step (length items) (lookup i.input_id r) (items_of items r) (items_of-length items r)

pub map-append_one {ℓ κ} :
    {A : Type ℓ} {B : Type κ} (f : A → B) (xs : List A) (x : A)
    → map f (xs ++ x ∷ []) ≡ map f xs ++ f x ∷ []
map-append_one f [] x = refl
map-append_one f (y ∷ ys) x = ap (λ t. f y ∷ t) (map-append_one f ys x)

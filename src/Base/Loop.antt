-- ===== src/Base/Loop.antt =====
-- A `loop { … }` whose body goes on with new variables, or breaks with a value, on fuel.
use Prim.Native.Nat.{ℕ, zero, suc, ◌<◌}
use mathlib.Core.Path.{◌≡◌, refl}
use mathlib.Core.Logic.{◌≢◌}
use native.Mathlib.Omega.{arith}
use snapemu_workflow.Base.Ends.{Outcome, ok, err, panic, stuck, ◌>>=◌}

pub data Flow (S R : Type 0) : Type 0 where
  again : S → Flow S R
  done : R → Flow S R

module _ {E S R : Type 0} where
  -- What the end of one round says of the rest.
  abbrev go_on : (S → Outcome E R) → Outcome E (Flow S R) → Outcome E R
  go_on rest (ok (again s)) = rest s
  go_on rest (ok (done r)) = ok r
  go_on rest (err e) = err e
  go_on rest panic = panic
  go_on rest stuck = stuck

  unfoldable pub loop : ℕ → (S → Outcome E (Flow S R)) → S → Outcome E R
  loop zero body s = stuck
  loop (suc fuel) body s = go_on (loop fuel body) (body s)

module _ {E S R : Type 0} (fuel : ℕ) (body : S → Outcome E (Flow S R)) (s : S) where
  -- One round, by how it ends.
  pub loop_again : (t : S) → body s ≡ ok (again t) → loop (suc fuel) body s ≡ loop fuel body t
  unfolding loop
  loop_again t h = rw h

  pub loop_done : (r : R) → body s ≡ ok (done r) → loop (suc fuel) body s ≡ ok r
  unfolding loop
  loop_done r h = rw h

  pub loop_err : (e : E) → body s ≡ err e → loop (suc fuel) body s ≡ err e
  unfolding loop
  loop_err e h = rw h

  pub loop_panic : body s ≡ panic → loop (suc fuel) body s ≡ panic
  unfolding loop
  loop_panic h = rw h

module _ {E S R : Type 0} where
  go_on-ne-stuck :
      (rest : S → Outcome E R) (o : Outcome E (Flow S R))
      → o ≢ stuck
      → ((t : S) → o ≡ ok (again t) → rest t ≢ stuck)
      → go_on rest o ≢ stuck
  go_on-ne-stuck rest (ok (again t)) whole next = next t refl
  go_on-ne-stuck rest (ok (done r)) whole next = λ q. cc
  go_on-ne-stuck rest (err e) whole next = λ q. cc
  go_on-ne-stuck rest panic whole next = λ q. cc
  go_on-ne-stuck rest stuck whole next = λ q. whole refl

  -- Where every round that goes on lowers a measure, fuel above that measure is enough.
  pub loop-ne-stuck :
      (P : S → Type 0) (measure : S → ℕ) (body : S → Outcome E (Flow S R))
      → ((s : S) → P s → body s ≢ stuck)
      → ((s t : S) → P s → body s ≡ ok (again t) → P t × (measure t < measure s))
      → (fuel : ℕ) (s : S) → measure s < fuel
      → P s
      → loop fuel body s ≢ stuck
  unfolding loop
  loop-ne-stuck P measure body whole keep zero s m h = absurd (omega arith)
  loop-ne-stuck P measure body whole keep (suc fuel) s m h =
      go_on-ne-stuck (loop fuel body) (body s) (whole s h) (λ t e.
        let (p, l) = keep s t h e in loop-ne-stuck P measure body whole keep fuel t (omega arith) p)

  go_on-eq-panic :
      (P : S → Type 0) {body : S → Outcome E (Flow S R)} (rest : S → Outcome E R)
      (o : Outcome E (Flow S R)) (s : S)
      → P s
      → body s ≡ o
      → ((t : S) → P s → body s ≡ ok (again t) → P t)
      → ((t : S) → P t → rest t ≡ panic → (u : S) × P u × (body u ≡ panic))
      → go_on rest o ≡ panic
      → (u : S) × P u × (body u ≡ panic)
  go_on-eq-panic P rest (ok (again t)) s h b keep later e = later t (keep t h b) e
  go_on-eq-panic P rest (ok (done r)) s h b keep later e = cc
  go_on-eq-panic P rest (err x) s h b keep later e = cc
  go_on-eq-panic P rest panic s h b keep later e = (s, h, b)
  go_on-eq-panic P rest stuck s h b keep later e = cc

  -- A loop that panics has a round that panics.
  pub loop-eq-panic :
      (P : S → Type 0) (body : S → Outcome E (Flow S R))
      → ((s t : S) → P s → body s ≡ ok (again t) → P t)
      → (fuel : ℕ) (s : S) → P s
      → loop fuel body s ≡ panic
      → (t : S) × P t × (body t ≡ panic)
  unfolding loop
  loop-eq-panic P body keep zero s h e = cc
  loop-eq-panic P body keep (suc fuel) s h e =
      go_on-eq-panic P (loop fuel body) (body s) s h refl (keep s) (loop-eq-panic P body keep fuel)
        e

module _ {E S R X : Type 0} where
  -- A round that ends in a fallible step and then goes on.
  pub loop_bind :
      (fuel : ℕ) (body : S → Outcome E (Flow S R)) (s : S) (m : Outcome E X) (f : X → S)
      → body s ≡ (m >>= λ x. ok (again (f x)))
      → loop (suc fuel) body s ≡ (m >>= λ x. loop fuel body (f x))
  unfolding loop
  loop_bind fuel body s (ok x) f h = rw h
  loop_bind fuel body s (err e) f h = rw h
  loop_bind fuel body s panic f h = rw h
  loop_bind fuel body s stuck f h = rw h

-- ===== src/Base/Results.antt =====
-- What a result that was returned says of the steps before it.
use snapemu_workflow.Base.{
  ◌≡◌, refl, Option, none, some, Outcome, ok, err, panic, stuck, ◌>>=◌, ok_or,
}

pub bind_ok :
    {E A B : Type 0} (m : Outcome E A) (f : A → Outcome E B) (b : B)
    → (m >>= f) ≡ ok b
    → (a : A) × (m ≡ ok a) × (f a ≡ ok b)
bind_ok (ok a) f b h = (a, refl, h)
bind_ok (err e) f b h = cc
bind_ok panic f b h = cc
bind_ok stuck f b h = cc

pub ok_or-some : {E A : Type 0} (o : Option A) (e : E) (a : A) → ok_or o e ≡ ok a → o ≡ some a
ok_or-some none e a h = cc
ok_or-some (some x) e a h = cc

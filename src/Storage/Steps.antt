-- ===== src/Storage/Steps.antt =====
-- What a chain of actions keeps, if each of them keeps it.
use notifications_template_p.Prelude.{◌≡◌, ap, Bool, true, false, if◌then◌else◌}
use notifications_template_p.Python.Errors.{Result, ok, raised}
use notifications_template_p.Storage.{World, Action, ◌>>=◌, lift}

module _ {S : Type 0} where
  -- A step that succeeds is followed by the rest of the chain.
  pub bind_run :
      {A B : Type 0} (m : Action S A) (f : A → Action S B) (u v : World S) (a : A)
      → m u ≡ (ok a, v)
      → (m >>= f) u ≡ f a v
  bind_run {A} {B} m f u v a h =
      ap
        (λ (p : Result A × World S). elim p.0 as (λ _. Result B × World S) [
          | ok x ↦ f x p.1
          | raised e ↦ (raised e, p.1)
        ])
        h

  -- The worlds before and after an action are related, whatever it returns or raises.
  abbrev pub Keeps : {A : Type 0} → (World S → World S → Type 0) → Action S A → Type 0
  Keeps R m = (w : World S) → R w (m w).1

  -- A relation that chains of actions respect.
  pub record IsPreorder (R : World S → World S → Type 0) : Type 0 where
    pub same : (w : World S) → R w w
    pub chain : (u v w : World S) → R u v → R v w → R u w

  module _ {R : World S → World S → Type 0} (preorder : IsPreorder R) where
    pub Keeps-lift : {A : Type 0} (r : Result A) → Keeps R (lift r)
    Keeps-lift r w = preorder.same w

    bind_step :
        {A B : Type 0} (r : Result A) (u v : World S) (f : A → Action S B)
        → R u v
        → ((a : A) → Keeps R (f a))
        → R u (◌>>=◌ (λ _. (r, v)) f u).1
    bind_step (ok a) u v f h k = preorder.chain u v _ h (k a v)
    bind_step (raised e) u v f h k = h

    pub Keeps->>= :
        {A B : Type 0} (m : Action S A) (f : A → Action S B)
        → Keeps R m
        → ((a : A) → Keeps R (f a))
        → Keeps R (m >>= f)
    Keeps->>= m f h k w = bind_step (m w).0 w (m w).1 f (h w) k

    -- The state of a step that only computes is the one before it.
    pub Keeps-lift->>= :
        {A B : Type 0} (r : Result A) (f : A → Action S B)
        → ((a : A) → Keeps R (f a))
        → Keeps R (lift r >>= f)
    Keeps-lift->>= (ok a) f h w = h a w
    Keeps-lift->>= (raised e) f h w = preorder.same w

    pub Keeps-if :
        {A : Type 0} (b : Bool) (m n : Action S A)
        → Keeps R m
        → Keeps R n
        → Keeps R (if b then m else n)
    Keeps-if true m n h k = h
    Keeps-if false m n h k = k

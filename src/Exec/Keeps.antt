-- ===== src/Exec/Keeps.antt =====
-- Rules for actions: what a `do` block that returned went through, and invariants that it keeps
-- whether it returns or fails.
use evm_indexer.Prelude.{
  ◌≡◌, refl, ap, subst, ◌⊎◌, inl, inr, Bool, true, false, arith, if◌then◌else◌,
}
use evm_indexer.Domain.Errors.{Error, Result, ok, err}
use evm_indexer.Exec.{World, Exec, pure, raise, lift, gets, continue, ◌>>=◌}

module _ {A B : Type 0} where
  continue-eq-ok :
      (f : A → Exec B) {b : B} {w' : World} (r : Result A) (v : World)
      → continue r f v ≡ (ok b, w')
      → (a : A) × (r ≡ ok a) × (f a v ≡ (ok b, w'))
  continue-eq-ok f (ok a) v h = (a, refl, h)
  continue-eq-ok f (err e) v h = absurd (ground arith)

  -- The two steps of a bind that returned.
  pub >>=-eq-ok :
      (m : Exec A) (f : A → Exec B) (w : World) {b : B} {w' : World}
      → (m >>= f) w ≡ (ok b, w')
      → (a : A) × (v : World) × (m w ≡ (ok a, v)) × (f a v ≡ (ok b, w'))
  unfolding ◌>>=◌
  >>=-eq-ok m f w h =
      let (r, v) = m w in let (a, p, q) = continue-eq-ok f r v h in (a, v, (λ i. (p i, v)), q)

-- `m` keeps `P`, whether it returns or fails.
pub record Keeps {A : Type 0} (P : World → Type 0) (m : Exec A) : Type 0 where
  pub at : (w : World) → P w → P (m w).1

module _ {A : Type 0} {P : World → Type 0} where
  pub Keeps-pure : (a : A) → Keeps P (pure a)
  unfolding pure
  Keeps-pure a = record { at = λ w h. h }

  pub Keeps-raise : (e : Error) → Keeps P (raise {A = A} e)
  unfolding raise
  Keeps-raise e = record { at = λ w h. h }

  pub Keeps-lift : (r : Result A) → Keeps P (lift r)
  unfolding lift
  Keeps-lift r = record { at = λ w h. h }

  pub Keeps-gets : (f : World → A) → Keeps P (gets f)
  unfolding gets
  Keeps-gets f = record { at = λ w h. h }

  pub Keeps-if : (b : Bool) (m n : Exec A) → Keeps P m → Keeps P n → Keeps P (if b then m else n)
  Keeps-if true m n km kn = km
  Keeps-if false m n km kn = kn

module _ {A B : Type 0} {P : World → Type 0} where
  continue-Keeps :
      (f : A → Exec B) (r : Result A) (v : World)
      → ((a : A) → Keeps P (f a))
      → P v
      → P (continue r f v).1
  continue-Keeps f (ok a) v kf h = (kf a).at v h
  continue-Keeps f (err e) v kf h = h

  pub Keeps-bind :
      (m : Exec A) (f : A → Exec B) → Keeps P m → ((a : A) → Keeps P (f a)) → Keeps P (m >>= f)
  unfolding ◌>>=◌
  Keeps-bind m f km kf = record {
    at = λ w h. let (r, v) = m w in continue-Keeps f r v kf (km.at w h);
  }

module _ {A B : Type 0} {P : World → Type 0} where
  -- The rest of a block is run only on what the check gave.
  pub Keeps-lift_bind :
      (r : Result A) (f : A → Exec B)
      → ((a : A) → r ≡ ok a → Keeps P (f a))
      → Keeps P (lift r >>= f)
  unfolding ◌>>=◌
  Keeps-lift_bind (ok a) f k = record { at = λ w h. (k a refl).at w h }
  Keeps-lift_bind (err e) f k = record { at = λ w h. h }

pub ruleset keeps_rules = (Keeps-pure, Keeps-raise, Keeps-lift, Keeps-gets, Keeps-if, Keeps-bind)

-- Where `m` returns, `Q` holds of the world that it leaves.
pub record Establishes {A : Type 0} (Q : World → Type 0) (m : Exec A) : Type 0 where
  pub at : (w : World) (a : A) (w' : World) → m w ≡ (ok a, w') → Q w'

module _ {A : Type 0} {Q : World → Type 0} where
  pub Establishes-keep :
      (m : Exec A) → Keeps Q m → (w : World) (a : A) (w' : World) → Q w → m w ≡ (ok a, w') → Q w'
  Establishes-keep m k w a w' q h = subst Q (λ i. (h i).1) (k.at w q)

module _ {A B : Type 0} {Q : World → Type 0} where
  -- The first step establishes it and the rest keeps it, or the rest establishes it.
  pub Establishes-first :
      (m : Exec A) (f : A → Exec B)
      → Establishes Q m
      → ((a : A) → Keeps Q (f a))
      → Establishes Q (m >>= f)
  Establishes-first m f e k = record {
    at = λ w b w' h.
        let (a, v, p, q) = >>=-eq-ok m f w h in
        Establishes-keep (f a) (k a) v b w' (e.at w a v p) q;
  }

  pub Establishes-rest :
      (m : Exec A) (f : A → Exec B) → ((a : A) → Establishes Q (f a)) → Establishes Q (m >>= f)
  Establishes-rest m f e = record {
    at = λ w b w' h. let (a, v, p, q) = >>=-eq-ok m f w h in (e a).at v b w' q;
  }

module _ {A B : Type 0} where
  -- The first step returned and the rest ran, or it failed and the block with it.
  pub >>=-cases :
      (m : Exec A) (f : A → Exec B) (w : World)
      → ((a : A) × (v : World) × (m w ≡ (ok a, v)) × ((m >>= f) w ≡ f a v))
        ⊎ ((e : Error) × (v : World) × (m w ≡ (err e, v)) × ((m >>= f) w ≡ (err e, v)))
  unfolding ◌>>=◌
  >>=-cases m f w = go (m w)
    where
      go :
          (p : Result A × World)
          → ((a : A) × (v : World) × (p ≡ (ok a, v)) × (continue p.0 f p.1 ≡ f a v))
            ⊎ ((e : Error) × (v : World) × (p ≡ (err e, v)) × (continue p.0 f p.1 ≡ (err e, v)))
      go (ok a, v) = inl (a, v, refl, refl)
      go (err e, v) = inr (e, v, refl, refl)

  pub >>=_of_ok :
      (m : Exec A) (f : A → Exec B) (w : World) {a : A} {v : World}
      → m w ≡ (ok a, v)
      → (m >>= f) w ≡ f a v
  unfolding ◌>>=◌
  >>=_of_ok m f w p = ap (λ (x : Result A × World). continue x.0 f x.1) p

  pub >>=_of_err :
      (m : Exec A) (f : A → Exec B) (w : World) {e : Error} {v : World}
      → m w ≡ (err e, v)
      → (m >>= f) w ≡ (err e, v)
  unfolding ◌>>=◌
  >>=_of_err m f w p = ap (λ (x : Result A × World). continue x.0 f x.1) p

pub lift_ok :
    {A B : Type 0} (r : Result A) (a : A) (w : World) (f : A → Exec B)
    → r ≡ ok a
    → (lift r >>= f) w ≡ f a w
unfolding ◌>>=◌
lift_ok r a w f p = rw p

pub lift_err :
    {A B : Type 0} (r : Result A) (e : Error) (w : World) (f : A → Exec B)
    → r ≡ err e
    → (lift r >>= f) w ≡ (err e, w)
unfolding ◌>>=◌
lift_err r e w f p = rw p

pub pure_lem : {A : Type 0} (a : A) (w : World) → pure a w ≡ (ok a, w)
unfolding pure
pure_lem a w = refl

-- A block that ends by returning a function of what it has got.
pub map-eq-ok :
    {A B : Type 0} (m : Exec A) (f : A → B) (w w' : World) (b : B)
    → (m >>= λ a. pure (f a)) w ≡ (ok b, w')
    → (a : A) × (v : World) × (m w ≡ (ok a, v)) × (b ≡ f a)
unfolding pure
map-eq-ok m f w w' b h =
    let (a, v, p, q) = >>=-eq-ok m (λ a. pure (f a)) w h in (a, v, p, ground arith)

-- A check that was passed leaves the world as it was.
pub lift-eq-ok :
    {A B : Type 0} (r : Result A) (f : A → Exec B) (w w' : World) (b : B)
    → (lift r >>= f) w ≡ (ok b, w')
    → (a : A) × (r ≡ ok a) × (f a w ≡ (ok b, w'))
unfolding ◌>>=◌
lift-eq-ok (ok a) f w w' b h = (a, refl, h)
lift-eq-ok (err e) f w w' b h = absurd (ground arith)

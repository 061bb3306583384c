-- ===== src/Prelude/Lists.antt =====
-- Lists: the iterator methods that the source uses, as Boolean searches and predicates, and
-- lengths by native numbers.
use Prim.Native.Nat.{ℕ, zero, suc, ◌+◌}
use mathlib.Core.Path.{◌≡◌, refl, sym}
use mathlib.Core.Logic.{◌≢◌, ◌⊎◌, inl, inr}
use mathlib.Core.Bool.{Bool, true, false, ◌||◌, ◌&&◌}
use mathlib.Core.List.{List, [], ◌∷◌, ◌++◌, map, append_assoc}
use mathlib.Core.Option.{Option, none, some}
use native.Mathlib.Omega.{arith}
use puppypeer.Prelude.Tests.{if◌then◌else◌, Bool-cases}

module _ {ℓ} {A : Type ℓ} where
  abbrev pub length : List A → ℕ
  length [] = 0
  length (x ∷ xs) = suc (length xs)

  abbrev pub get_elem? : List A → ℕ → Option A
  get_elem? [] i = none
  get_elem? (x ∷ xs) zero = some x
  get_elem? (x ∷ xs) (suc i) = get_elem? xs i

  abbrev pub take : ℕ → List A → List A
  take zero xs = []
  take (suc n) [] = []
  take (suc n) (x ∷ xs) = x ∷ take n xs

  abbrev pub drop : ℕ → List A → List A
  drop zero xs = xs
  drop (suc n) [] = []
  drop (suc n) (x ∷ xs) = drop n xs

  abbrev pub replicate : ℕ → A → List A
  replicate zero x = []
  replicate (suc n) x = x ∷ replicate n x

  -- `iter().any(p)`
  abbrev pub any : (A → Bool) → List A → Bool
  any p [] = false
  any p (x ∷ xs) = p x || any p xs

  -- `iter().find(p)`
  abbrev pub find : (A → Bool) → List A → Option A
  find p [] = none
  find p (x ∷ xs) = if p x then some x else find p xs

  -- `retain(p)` and `iter().filter(p)`
  abbrev pub retain : (A → Bool) → List A → List A
  retain p [] = []
  retain p (x ∷ xs) = let rest = retain p xs in if p x then x ∷ rest else rest

  -- Every element, and some element, satisfies `P`.
  abbrev pub All {κ} : (A → Type κ) → List A → Type κ
  All P [] = Unit
  All P (x ∷ xs) = P x × All P xs

  abbrev pub Any : (A → Type 0) → List A → Type 0
  Any P [] = ⊥
  Any P (x ∷ xs) = P x ⊎ Any P xs

  pub length-append : (xs ys : List A) → length (xs ++ ys) ≡ length xs + length ys
  length-append [] ys = omega arith
  length-append (x ∷ xs) ys = omega (arith, length-append xs ys)

  pub any-append : (p : A → Bool) (xs ys : List A) → any p (xs ++ ys) ≡ (any p xs || any p ys)
  any-append p [] ys = refl
  any-append p (x ∷ xs) ys = ground (arith, any-append p xs ys)

  pub any→Any :
      (p : A → Bool) (P : A → Type 0)
      → ((x : A) → p x ≡ true → P x)
      → (xs : List A) → any p xs ≡ true
      → Any P xs
  any→Any p P f [] h = ground arith
  any→Any p P f (x ∷ xs) h = elim (Bool-cases (p x)) [
    | inl e ↦ inl (f x e)
    | inr e ↦ inr (any→Any p P f xs (ground arith))
  ]

  pub Any→any :
      (p : A → Bool) (P : A → Type 0)
      → ((x : A) → P x → p x ≡ true)
      → (xs : List A) → Any P xs
      → any p xs ≡ true
  Any→any p P f [] h = absurd h
  Any→any p P f (x ∷ xs) (inl h) = ground (arith, f x h)
  Any→any p P f (x ∷ xs) (inr h) = ground (arith, Any→any p P f xs h)

  pub All-append {κ} :
      (P : A → Type κ) (front back : List A) → All P front → All P back → All P (front ++ back)
  All-append P [] back f b = b
  All-append P (x ∷ front) back f b = (f.0, All-append P front back f.1 b)

  pub All-retain {κ} :
      (P : A → Type κ) (p : A → Bool) (xs : List A) → All P xs → All P (retain p xs)
  All-retain P p [] h = h
  All-retain P p (x ∷ xs) h = elim (Bool-cases (p x)) [
    | inl e ↦ rw e (h.0, All-retain P p xs h.1)
    | inr e ↦ rw e (All-retain P p xs h.1)
  ]

  pub retain-append :
      (p : A → Bool) (xs ys : List A) → retain p (xs ++ ys) ≡ retain p xs ++ retain p ys
  retain-append p [] ys = refl
  retain-append p (x ∷ xs) ys = ground (arith, retain-append p xs ys)

module _ {ℓ} {A : Type ℓ} where
  pub retain-ext :
      (p q : A → Bool) → ((x : A) → p x ≡ q x) → (xs : List A) → retain p xs ≡ retain q xs
  retain-ext p q e [] = refl
  retain-ext p q e (x ∷ xs) = ground (arith, e x, retain-ext p q e xs)

  pub retain-retain :
      (p q : A → Bool) (xs : List A) → retain p (retain q xs) ≡ retain (λ x. q x && p x) xs
  retain-retain p q [] = refl
  retain-retain p q (x ∷ xs) = ground (arith, retain-retain p q xs)

module _ {ℓ κ} {A : Type ℓ} {B : Type κ} where
  -- `iter().flat_map(f)`
  abbrev pub flat_map : (A → List B) → List A → List B
  flat_map f [] = []
  flat_map f (x ∷ xs) = f x ++ flat_map f xs

  pub any-map : (p : B → Bool) (f : A → B) (xs : List A) → any p (map f xs) ≡ any (λ x. p (f x)) xs
  any-map p f [] = refl
  any-map p f (x ∷ xs) = ground (arith, any-map p f xs)

  pub retain-map :
      (p : B → Bool) (f : A → B) (xs : List A)
      → retain p (map f xs) ≡ map f (retain (λ x. p (f x)) xs)
  retain-map p f [] = refl
  retain-map p f (x ∷ xs) = ground (arith, retain-map p f xs)

  pub flat_map-append :
      (f : A → List B) (xs ys : List A) → flat_map f (xs ++ ys) ≡ flat_map f xs ++ flat_map f ys
  flat_map-append f [] ys = refl
  flat_map-append f (x ∷ xs) ys =
      rw (flat_map-append f xs ys) (sym (append_assoc (f x) (flat_map f xs) (flat_map f ys)))

-- No two elements have one key.
module _ {ℓ κ} {A : Type ℓ} {K : Type κ} (key : A → K) where
  abbrev pub Distinct : List A → Type κ
  Distinct [] = Unit
  Distinct (x ∷ xs) = All (λ y. key y ≢ key x) xs × Distinct xs

  pub Distinct-retain : (p : A → Bool) (xs : List A) → Distinct xs → Distinct (retain p xs)
  Distinct-retain p [] d = d
  Distinct-retain p (x ∷ xs) d = elim (Bool-cases (p x)) [
    | inl e ↦ rw e (All-retain (λ y. key y ≢ key x) p xs d.0, Distinct-retain p xs d.1)
    | inr e ↦ rw e (Distinct-retain p xs d.1)
  ]

  pub Distinct-snoc :
      (xs : List A) (y : A) → All (λ x. key x ≢ key y) xs → Distinct xs → Distinct (xs ++ y ∷ [])
  Distinct-snoc [] y h d = (tt, tt)
  Distinct-snoc (x ∷ xs) y h d = (
    All-append (λ z. key z ≢ key x) xs (y ∷ []) d.0 (λ e. h.0 (sym e), tt),
    Distinct-snoc xs y h.1 d.1,
  )

module _ {ℓ κ} {A : Type ℓ} where
  -- A failed search says that no element passes the test.
  pub any_false→All :
      (p : A → Bool) (P : A → Type κ)
      → ((x : A) → p x ≡ false → P x)
      → (xs : List A) → any p xs ≡ false
      → All P xs
  any_false→All p P f [] h = tt
  any_false→All p P f (x ∷ xs) h = (f x (ground arith), any_false→All p P f xs (ground arith))

  pub All→any_false :
      (p : A → Bool) (P : A → Type κ)
      → ((x : A) → P x → p x ≡ false)
      → (xs : List A) → All P xs
      → any p xs ≡ false
  All→any_false p P f [] h = refl
  All→any_false p P f (x ∷ xs) h = ground (arith, f x h.0, All→any_false p P f xs h.1)

  pub All-imp {μ} :
      (P : A → Type κ) (Q : A → Type μ)
      → ((x : A) → P x → Q x)
      → (xs : List A) → All P xs
      → All Q xs
  All-imp P Q f [] h = tt
  All-imp P Q f (x ∷ xs) h = (f x h.0, All-imp P Q f xs h.1)

  pub All→retain_nil :
      (p : A → Bool) (P : A → Type κ)
      → ((x : A) → P x → p x ≡ false)
      → (xs : List A) → All P xs
      → retain p xs ≡ []
  All→retain_nil p P f [] h = refl
  All→retain_nil p P f (x ∷ xs) h = ground (arith, f x h.0, All→retain_nil p P f xs h.1)

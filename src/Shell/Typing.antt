-- ===== src/Shell/Typing.antt =====
-- Typing into the form for a new user of cli/src/shell.rs.
use puppypeer.Prelude.{
  ℕ, suc, zero, ◌≡◌, refl, ap, ◌∙◌, Option, none, some, List, [], ◌∷◌, ◌++◌, map, length, replicate,
  Text,
}
use mathlib.Core.List.{append_assoc}
use puppypeer.Shell.Format.{Outside}
use puppypeer.Shell.App.{
  ActiveField, CreateUserForm, create_user, ShellApp, Key, char, backspace, key, Answers, stay,
}
use puppypeer.Shell.FormKeys.{pop, edit, form_key}
use puppypeer.Shell.Keys.{handle_event}
use puppypeer.Shell.Refresh.{◌>>=◌}
use puppypeer.Shell.Escape.{press_all}

pop_snoc : (t : Text) (c : ℕ) → pop (t ++ c ∷ []) ≡ t
pop_snoc [] c = refl
pop_snoc (x ∷ []) c = refl
pop_snoc (x ∷ y ∷ t) c = ap (λ u. x ∷ u) (pop_snoc (y ∷ t) c)

edit-pop_at :
    (f : ActiveField) (c : ℕ) (form : CreateUserForm)
    → edit pop (edit (λ t. t ++ c ∷ []) (record form { field = f })) ≡ record form { field = f }
edit-pop_at ActiveField.username c form =
    ap (λ t. record form { username = t; field = ActiveField.username }) (pop_snoc form.username c)
edit-pop_at ActiveField.password c form =
    ap (λ t. record form { password = t; field = ActiveField.password }) (pop_snoc form.password c)

edit-pop : (c : ℕ) (form : CreateUserForm) → edit pop (edit (λ t. t ++ c ∷ []) form) ≡ form
edit-pop c form = edit-pop_at form.field c form

bind_assoc {ℓ κ μ} :
    {A : Type ℓ} {B : Type κ} {C : Type μ} (o : Option A) (g : A → Option C) (f : A → Option B)
    (h : B → Option C)
    → ((a : A) → g a ≡ (f a >>= h))
    → (o >>= g) ≡ ((o >>= f) >>= h)
bind_assoc none g f h e = refl
bind_assoc (some a) g f h e = e a

module _ (outside : Outside) where
  press_all-append :
      (xs ys : List (Answers × Key)) (a : ShellApp)
      → press_all outside (xs ++ ys) a ≡ (press_all outside xs a >>= press_all outside ys)
  unfolding press_all
  press_all-append [] ys a = refl
  press_all-append ((ans, k) ∷ xs) ys a =
      bind_assoc (handle_event outside ans (key k) a) (press_all outside (xs ++ ys))
        (press_all outside xs) (press_all outside ys) (press_all-append xs ys)

  module _ (ans : Answers) where
    abbrev typed : ℕ → Answers × Key
    typed c = (ans, char c)

    abbrev erased : Answers × Key
    erased = (ans, backspace)

    -- Each character, and after those that follow it, a Backspace.
    nested : Text → List (Answers × Key)
    nested [] = []
    nested (c ∷ t) = typed c ∷ (nested t ++ erased ∷ [])

    snoc_erased : (n : ℕ) → replicate n erased ++ erased ∷ [] ≡ erased ∷ replicate n erased
    snoc_erased zero = refl
    snoc_erased (suc n) = ap (λ l. erased ∷ l) (snoc_erased n)

    nested_lem : (t : Text) → nested t ≡ map typed t ++ replicate (length t) erased
    unfolding nested
    nested_lem [] = refl
    nested_lem (c ∷ t) =
        ap (λ l. typed c ∷ l)
          (ap (λ l. l ++ erased ∷ []) (nested_lem t)
            ∙ append_assoc (map typed t) (replicate (length t) erased) (erased ∷ [])
            ∙ ap (λ l. map typed t ++ l) (snoc_erased (length t)))

    nested_undone :
        (t : Text) (form : CreateUserForm) (a : ShellApp)
        → press_all outside (nested t) (stay a (create_user form))
          ≡ some (stay a (create_user form))
    unfolding nested press_all handle_event form_key
    nested_undone [] form a = refl
    nested_undone (c ∷ t) form a =
        let form' = edit (λ u. u ++ c ∷ []) form in
        press_all-append (nested t) (erased ∷ []) (stay a (create_user form'))
        ∙ ap (λ o. o >>= press_all outside (erased ∷ [])) (nested_undone t form' a)
        ∙ ap (λ g. some (stay a (create_user g))) (edit-pop c form)

-- In the form for a new user every text can be typed, also one with a `q`: as many Backspaces as it has
-- characters then lead back to the form as it was, with nothing else of the interface changed.
pub press_all_undone :
    (outside : Outside) (ans : Answers) (t : Text) (form : CreateUserForm) (a : ShellApp)
    → press_all outside
        (map (λ c. (ans, char c)) t ++ replicate (length t) (ans, backspace))
        (stay a (create_user form))
      ≡ some (stay a (create_user form))
press_all_undone outside ans t form a =
    rw⁻¹ (nested_lem outside ans t) (nested_undone outside ans t form a)

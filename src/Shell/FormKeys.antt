-- ===== src/Shell/FormKeys.antt =====
-- The keys of the form for a new user of `ShellApp::handle_event` in cli/src/shell.rs.
use puppypeer.Prelude.{◌||◌, [], ◌∷◌, ◌++◌, Text, codes, if◌then◌else◌}
use puppypeer.Shell.Peers.{is_empty}
use puppypeer.Shell.App.{
  ActiveField, CreateUserForm, menu, create_user, ShellApp, Key, char, esc, enter, tab, back_tab,
  backspace, go, stay,
}

abbrev pub other_field : ActiveField → ActiveField
other_field ActiveField.username = ActiveField.password
other_field ActiveField.password = ActiveField.username

-- `String::pop`
abbrev pub pop : Text → Text
pop [] = []
pop (c ∷ []) = []
pop (c ∷ d ∷ cs) = c ∷ pop (d ∷ cs)

abbrev pub edit_field : ActiveField → (Text → Text) → CreateUserForm → CreateUserForm
edit_field ActiveField.username f form = record form { username = f form.username }
edit_field ActiveField.password f form = record form { password = f form.password }

abbrev pub edit : (Text → Text) → CreateUserForm → CreateUserForm
edit f form = edit_field form.field f form

abbrev pub submit : CreateUserForm → ShellApp → ShellApp
submit form a =
    if is_empty form.username || is_empty form.password
    then go a (create_user form) (codes "Both fields required")
    else go a menu (codes "Created user '" ++ form.username ++ codes "' (placeholder)")

unfoldable pub form_key : Key → CreateUserForm → ShellApp → ShellApp
form_key esc form a = go a menu (codes "Cancelled create user")
form_key tab form a = stay a (create_user (record form { field = other_field form.field }))
form_key back_tab form a = stay a (create_user (record form { field = other_field form.field }))
form_key enter form a = submit form a
form_key (char c) form a = stay a (create_user (edit (λ t. t ++ c ∷ []) form))
form_key backspace form a = stay a (create_user (edit pop form))
form_key _ form a = a

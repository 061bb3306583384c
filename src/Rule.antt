-- ===== src/Rule.antt =====
-- core/src/state.rs: the flags of a shared folder, folder rules, rules and permissions.
pub mod Flags
use puppypeer.Prelude.{ℕ, Bool, true, false, not, ◌&&◌, ◌!=◌, Option, none, bit_and, if◌then◌else◌}
use puppypeer.FilePath.{FilePath}

abbrev pub flag_read : ℕ
flag_read = 1

abbrev pub flag_write : ℕ
flag_write = 2

abbrev pub flag_execute : ℕ
flag_execute = 4

abbrev pub flag_search : ℕ
flag_search = 8

-- `flags` is a `u8`.
pub record FolderRule : Type 0 where
  pub path : FilePath
  pub flags : ℕ

unfoldable pub can_read : FolderRule → Bool
can_read r = bit_and r.flags flag_read != 0

unfoldable pub can_write : FolderRule → Bool
can_write r = bit_and r.flags flag_write != 0

unfoldable pub can_execute : FolderRule → Bool
can_execute r = bit_and r.flags flag_execute != 0

unfoldable pub can_search : FolderRule → Bool
can_search r = bit_and r.flags flag_search != 0

unfoldable pub allows : FolderRule → ℕ → Bool
unfolding can_read can_write can_execute can_search
allows r access =
    if bit_and access flag_read != 0 && not (can_read r)
    then false
    else if bit_and access flag_write != 0 && not (can_write r)
    then false
    else if bit_and access flag_execute != 0 && not (can_execute r)
    then false
    else if bit_and access flag_search != 0 && not (can_search r)
    then false
    else true

pub data Rule : Type 0 where
  owner : Rule
  folder : FolderRule → Rule

-- An `i64`: `negative n` is -(n + 1).
pub data I64 : Type 0 where
  positive : ℕ → I64
  negative : ℕ → I64

pub record Permission : Type 0 where
  pub rule : Rule
  pub expires_at : Option I64

-- `Permission::new` and `Permission::with_expiration`
abbrev pub permission : Rule → Permission
permission r = record { rule = r; expires_at = none }

abbrev pub with_expiration : Rule → Option I64 → Permission
with_expiration r e = record { rule = r; expires_at = e }

-- ===== src/Inventory/Numbers.antt =====
-- A number that goes through the database as an `i64` comes back, in core/src/db.rs.
use puppypeer.Prelude.{ℕ, ◌^◌, ◌<◌, ◌≡◌, ltb, arith, Bool-cases, inl, inr}
use puppypeer.Inventory.{as_i64, as_u64, as_u32}

pub as_u64-as_i64 : (n : ℕ) → n < 2 ^ 64 → as_u64 (as_i64 n) ≡ n
unfolding as_u64 as_i64
as_u64-as_i64 n h = elim (Bool-cases (ltb n (2 ^ 63))) [
  | inl e ↦ ground (arith, e, h)
  | inr e ↦ ground (arith, e, h)
]

pub as_u32-as_i64 : (n : ℕ) → n < 2 ^ 32 → as_u32 (as_i64 n) ≡ n
unfolding as_u32 as_i64
as_u32-as_i64 n h = elim (Bool-cases (ltb n (2 ^ 63))) [
  | inl e ↦ ground (arith, e, h)
  | inr e ↦ ground (arith, e, h)
]

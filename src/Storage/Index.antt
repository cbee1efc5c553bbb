-- ===== src/Storage/Index.antt =====
-- The index of storage/binary_storage.py: uniqueness of its addresses, and the sum of its sizes.
use seigr_toolset_transmissi.Common.{
  ◌+◌, ◌≡◌, refl, [], ◌∷◌, Bytes, false, Option-cases, none, some, inl, inr, arith,
}
use seigr_toolset_transmissi.Common.Dict.{
  Dict, get as find, put as assign, remove as delete, has, get-put as find-assign,
  get-remove as find-delete, bytes_eq, bytes_beq_iff,
}
use seigr_toolset_transmissi.Storage.{Metadata, total}

abbrev pub Index : Type 0
Index = Dict Bytes Metadata

-- No address is listed twice.
abbrev pub IsUnique : Index → Type 0
IsUnique [] = Unit {0}
IsUnique ((a, m) ∷ index) = (find a index ≡ none) × IsUnique index

pub assign-IsUnique :
    (a : Bytes) (m : Metadata) (index : Index) → IsUnique index → IsUnique (assign a m index)
unfolding find assign
assign-IsUnique a m [] u = (refl, tt)
assign-IsUnique a m ((b, n) ∷ index) u = ground (
  arith,
  bytes_beq_iff b a,
  bytes_beq_iff a b,
  find-assign a b m index,
  assign-IsUnique a m index u.1,
)

pub delete-IsUnique : (a : Bytes) (index : Index) → IsUnique index → IsUnique (delete a index)
unfolding delete
delete-IsUnique a [] u = tt
delete-IsUnique a ((b, n) ∷ index) u =
    ground (arith, find-delete a b index, delete-IsUnique a index u.1)

pub total-assign_new :
    (a : Bytes) (m : Metadata) (index : Index)
    → find a index ≡ none
    → total (assign a m index) ≡ total index + m.size
unfolding find assign
total-assign_new a m [] new = omega arith
total-assign_new a m ((b, n) ∷ index) new = ground (arith, total-assign_new a m index)

pub total-assign_known :
    (a : Bytes) (m n : Metadata) (index : Index)
    → find a index ≡ some n
    → m.size ≡ n.size
    → total (assign a m index) ≡ total index
unfolding find assign
total-assign_known a m n [] there same = cc there
total-assign_known a m n ((b, o) ∷ index) there same =
    ground (arith, total-assign_known a m n index)

delete-none : (a : Bytes) (index : Index) → find a index ≡ none → delete a index ≡ index
unfolding find delete
delete-none a [] new = refl
delete-none a ((b, n) ∷ index) new = ground (arith, delete-none a index)

pub total-delete :
    (a : Bytes) (m : Metadata) (index : Index)
    → IsUnique index
    → find a index ≡ some m
    → total (delete a index) + m.size ≡ total index
unfolding find delete
total-delete a m [] u there = cc there
total-delete a m ((b, n) ∷ index) u there =
    ground (arith, bytes_beq_iff b a, delete-none b index (u.0), total-delete a m index (u.1))

pub has-none : (a : Bytes) (index : Index) → has a index ≡ false → find a index ≡ none
has-none a index absent = elim (Option-cases (find a index)) [
  | inl missing ↦ missing
  | inr there ↦ absurd (let b = (rw (has, there.1) at absent) in cc b)
]

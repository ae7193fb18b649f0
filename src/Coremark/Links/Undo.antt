-- ===== src/Coremark/Links/Undo.antt =====
-- Removing an item and putting it back.
use mlonmcu_sw.Base.{ℕ, ◌≡◌, ◌≢◌, refl, arith, ◌==◌, false, Bool-cases, inl, inr}
use mlonmcu_sw.Coremark.Links.{Store, core_list_remove, core_list_undo_remove}

-- Every field of every head and of all data is the same.
abbrev pub SameStore : Store → Store → Type 0
SameStore m m' =
    (x : ℕ)
    → (m'.next x ≡ m.next x)
      × (m'.info x ≡ m.info x)
      × (m'.data16 x ≡ m.data16 x)
      × (m'.idx x ≡ m.idx x)

-- After `core_list_remove` of an item whose successor is another one, the successor is returned, and
-- `core_list_undo_remove` with it gives back the store, field by field.
pub core_list_undo_remove-SameStore :
    (item : ℕ) (m : Store)
    → m.next item ≢ item
    → let (ret, m') = core_list_remove item m in
      (ret ≡ m.next item) × SameStore m (core_list_undo_remove ret item m').1
unfolding core_list_remove core_list_undo_remove
core_list_undo_remove-SameStore item m ne = (refl, same)
  where
    same :
        (x : ℕ)
        → let m' = (core_list_undo_remove (m.next item) item (core_list_remove item m).1).1 in
          (m'.next x ≡ m.next x)
          × (m'.info x ≡ m.info x)
          × (m'.data16 x ≡ m.data16 x)
          × (m'.idx x ≡ m.idx x)
    same x = elim (Bool-cases (x == item)) [
      | inl e ↦
          let e' : x ≡ item = ground (arith, e) in
          rw e' (ground (arith, ne), ground (arith, ne), refl, refl)
      | inr f ↦ elim (Bool-cases (x == m.next item)) [
        | inl e ↦
            let e' : x ≡ m.next item = ground (arith, e) in
            let apart : (m.next item == item) ≡ false = ground (arith, ne) in
            rw (e', apart) (ground (arith, ne), ground (arith, ne), refl, refl)
        | inr g ↦ rw (f, g) (refl, refl, refl, refl)
      ]
    ]
